-- ===== src/Pricing/Tests.antt =====
-- Runs and instances.
use trace_bloom.Base.{
  ◌==◌, ◌||◌, Bool, ◌*◌, ℕ, ◌≡◌, refl, ◌⊎◌, String, true, false, none, some, [], ◌∷◌, length, All,
  string_eq,
}
use mathlib.Core.List.{Memᴰ}
use trace_bloom.Dict
use trace_bloom.Text.{codes}
use trace_bloom.Pricing.{
  ModelPrice, PricingMap, from_canonical, lookup_price, compute_cost, zero_cost, no_price,
}
use trace_bloom.Pricing.Lookup.{is_prefix, is_within, lookup_price-longest}

abbrev price_of : ℕ → ModelPrice
price_of n = record {
  input_per_m_tok = record { num = n; den = 1 };
  output_per_m_tok = record { num = 4 * n; den = 1 };
}

-- Two of the names.
abbrev inherited : String → Bool
inherited name = (name == "constructor") || (name == "toString")

abbrev prices : PricingMap
prices = ("gpt", price_of 2) ∷ ("gpt-4o-mini", price_of 1) ∷ ("gpt-4o", price_of 3) ∷ []

-- A dated name gets the price of the longest name in front of the date.
lookup_price-dated : lookup_price inherited "gpt-4o-2024" prices ≡ some (price_of 3)
unfolding lookup_price Dict.get
lookup_price-dated = refl

compute_cost-unknown : compute_cost inherited "o3" 1000 1000 prices ≡ zero_cost
unfolding compute_cost Dict.get
compute_cost-unknown = refl

from_canonical_run :
    Dict.get "gpt" (
      from_canonical []
        (("gpt", (record { num = 2; den = 1 }), (record { num = 8; den = 1 })) ∷ []))
    ≡ some (price_of 2)
unfolding from_canonical Dict.get Dict.set
from_canonical_run = refl

lookup_price-constructor : lookup_price inherited "constructor" prices ≡ some no_price
unfolding lookup_price Dict.get
lookup_price-constructor = refl

lookup_price-longest_example :
    ((price : ModelPrice) × (Dict.get "gpt-4o-2024" prices ≡ some price)
      × (lookup_price inherited "gpt-4o-2024" prices ≡ some price))
    ⊎ (Dict.get "gpt-4o-2024" prices ≡ none)
      × (inherited "gpt-4o-2024" ≡ true)
      × (lookup_price inherited "gpt-4o-2024" prices ≡ some no_price)
    ⊎ ((key : String) × (price : ModelPrice) × (Dict.get "gpt-4o-2024" prices ≡ none)
        × (inherited "gpt-4o-2024" ≡ false)
        × (lookup_price inherited "gpt-4o-2024" prices ≡ some price)
        × Memᴰ (key, price) prices
        × (is_prefix "gpt-4o-2024" key ≡ true)
        × All (λ e. is_within "gpt-4o-2024" (length (codes key)) e ≡ true) prices)
    ⊎ (Dict.get "gpt-4o-2024" prices ≡ none)
      × (inherited "gpt-4o-2024" ≡ false)
      × (lookup_price inherited "gpt-4o-2024" prices ≡ none)
      × All (λ e. is_prefix "gpt-4o-2024" e.0 ≡ false) prices
lookup_price-longest_example = lookup_price-longest "gpt-4o-2024" inherited prices

-- ===== src/Pricing.antt =====
-- packages/sdk-ts/src/pricing.ts: the price of a model, and the cost of a call. A price is a fraction
-- of a dollar, and costs are exact fractions: the rounding of binary floating point is not modelled.
pub mod Lookup
pub mod Tests
use trace_bloom.Base.{
  ℕ, ◌+◌, ◌*◌, String, Bool, true, false, ◌&&◌, Option, none, some, List, [], ◌∷◌, map, ltb,
  nat_beq, if◌then◌else◌, length, string_eq,
}
use trace_bloom.Dict
use trace_bloom.Dict.{Dict}
use trace_bloom.Text.{codes}

-- A fraction that is not negative.
pub record Amount : Type 0 where
  pub num : ℕ
  pub den : ℕ

-- ModelPrice: dollars for a million tokens.
pub record ModelPrice : Type 0 where
  pub input_per_m_tok : Amount
  pub output_per_m_tok : Amount

abbrev pub PricingMap : Type 0
PricingMap = Dict String ModelPrice

-- fromCanonical, for the entries of the pricing file.
unfoldable pub from_canonical : PricingMap → List (String × Amount × Amount) → PricingMap
from_canonical prices [] = prices
from_canonical prices ((model, input, output) ∷ models) =
    from_canonical
      (Dict.set model (record { input_per_m_tok = input; output_per_m_tok = output }) prices) models

-- CostBreakdown.
pub record CostBreakdown : Type 0 where
  pub input_usd : Amount
  pub output_usd : Amount
  pub total_usd : Amount

abbrev pub zero_amount : Amount
zero_amount = record { num = 0; den = 1 }

-- ZERO_COST.
abbrev pub zero_cost : CostBreakdown
zero_cost = record { input_usd = zero_amount; output_usd = zero_amount; total_usd = zero_amount }

-- `text.startsWith(prefix)`, on code points.
abbrev pub starts_with : List ℕ → List ℕ → Bool
starts_with text [] = true
starts_with [] (p ∷ ps) = false
starts_with (c ∷ cs) (p ∷ ps) = nat_beq c p && starts_with cs ps

-- `best` and `bestLen`: the length is one more here, so that -1 is 0.
pub record Best : Type 0 where
  pub price : Option ModelPrice
  pub len : ℕ

-- The body of the loop of lookupPrice.
unfoldable pub try_key : String → Best → String → ModelPrice → Best
try_key model best key price =
    if starts_with (codes model) (codes key) && ltb best.len (length (codes key) + 1)
    then record { price = some price; len = length (codes key) + 1 }
    else best

unfoldable pub longest_prefix : String → Best → PricingMap → Best
unfolding try_key
longest_prefix model best [] = best
longest_prefix model best ((key, price) ∷ prices) =
    longest_prefix model (try_key model best key price) prices

-- What a value of Object.prototype is as a price: both prices of it are undefined, and so every cost
-- NaN, which is 0 / 0 here.
abbrev pub not_a_number : Amount
not_a_number = record { num = 0; den = 0 }

abbrev pub no_price : ModelPrice
no_price = record { input_per_m_tok = not_a_number; output_per_m_tok = not_a_number }

-- lookupPrice. `pricing[model]` also finds the names that a plain object inherits.
unfoldable pub lookup_price : (String → Bool) → String → PricingMap → Option ModelPrice
unfolding longest_prefix
lookup_price inherited model pricing = elim (Dict.get model pricing) [
  | some exact ↦ some exact
  | none ↦
      if inherited model
      then some no_price
      else (longest_prefix model (record { price = none; len = 0 }) pricing).price
]

-- `(tokens / 1_000_000) * price`, and a sum.
abbrev pub times_price : ℕ → Amount → Amount
times_price tokens price = record { num = tokens * price.num; den = 1_000_000 * price.den }

abbrev pub add_amount : Amount → Amount → Amount
add_amount a b = record { num = a.num * b.den + b.num * a.den; den = a.den * b.den }

abbrev pub cost_at : ℕ → ℕ → Option ModelPrice → CostBreakdown
cost_at input_tokens output_tokens none = zero_cost
cost_at input_tokens output_tokens (some price) =
    let input = times_price input_tokens price.input_per_m_tok in
    let output = times_price output_tokens price.output_per_m_tok in
    record { input_usd = input; output_usd = output; total_usd = add_amount input output }

-- computeCost.
unfoldable pub compute_cost : (String → Bool) → String → ℕ → ℕ → PricingMap → CostBreakdown
unfolding lookup_price
compute_cost inherited model input_tokens output_tokens pricing =
    cost_at input_tokens output_tokens (lookup_price inherited model pricing)

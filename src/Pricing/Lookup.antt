-- ===== src/Pricing/Lookup.antt =====
-- The price that a model gets.
use trace_bloom.Base.{
  ℕ, suc, ◌+◌, ◌≤◌, ◌≡◌, refl, ◌∙◌, ◌⊎◌, inl, inr, String, Bool, true, false, ◌||◌, not, none, some,
  [], ◌∷◌, arith, leb, ltb, ltb→lt, length, All, Bool-cases, Option-cases, string_eq,
}
use mathlib.Core.List.{Memᴰ}
use trace_bloom.Dict
use trace_bloom.Dict.{Dict}
use trace_bloom.Text.{codes}
use trace_bloom.Pricing.{
  ModelPrice, PricingMap, starts_with, Best, try_key, longest_prefix, lookup_price, no_price,
}

module _ (model : String) where
  abbrev pub is_prefix : String → Bool
  is_prefix key = starts_with (codes model) (codes key)

  -- A key is no prefix of the model, or no longer than this.
  abbrev pub is_within : ℕ → String × ModelPrice → Bool
  is_within len e = not (is_prefix e.0) || leb (length (codes e.0)) len

  -- What the loop has found: nothing new, or the price of a prefix.
  abbrev Found : Best → Best → PricingMap → Type 0
  Found best r prices =
      (r ≡ best)
      ⊎ ((key : String) × (price : ModelPrice) × Memᴰ (key, price) prices
          × (is_prefix key ≡ true)
          × (r.price ≡ some price)
          × (r.len ≡ suc (length (codes key))))

  Found-next :
      (best t r : Best) (key : String) (price : ModelPrice) (prices : PricingMap)
      → (t ≡ best)
        ⊎ (is_prefix key ≡ true) × (t.price ≡ some price) × (t.len ≡ suc (length (codes key)))
      → Found t r prices
      → Found best r ((key, price) ∷ prices)
  Found-next best t r key price prices one (inr (k, p, m, pre, cost, len)) =
      inr (k, p, Memᴰ.tail m, pre, cost, len)
  Found-next best t r key price prices (inl same) (inl e) = inl (e ∙ same)
  Found-next best t r key price prices (inr (pre, cost, len)) (inl e) =
      inr (key, price, Memᴰ.head refl, pre, rw e cost, rw e len)

  -- One pass either takes the key, or leaves the best, which is then no shorter.
  try_key-cases :
      (best : Best) (key : String) (price : ModelPrice)
      → let t = try_key model best key price in
        (best.len ≤ t.len)
        × ((not (is_prefix key) || leb (suc (length (codes key))) t.len) ≡ true)
        × ((t ≡ best)
            ⊎ (is_prefix key ≡ true) × (t.price ≡ some price) × (t.len ≡ suc (length (codes key))))
  unfolding try_key
  try_key-cases best key price = elim (Bool-cases (is_prefix key)) [
    | inr e ↦ rw e (omega arith, refl, inl refl)
    | inl e ↦ elim (Bool-cases (ltb best.len (length (codes key) + 1))) [
      | inl f ↦
          rw (e, f)
            (
              omega (arith, ltb→lt best.len (length (codes key) + 1) f),
              ground arith,
              inr (refl, refl, omega arith),
            )
      | inr f ↦ rw (e, f) (omega arith, ground arith, inl refl)
    ]
  ]

  longest_prefix_lem :
      (best : Best) (prices : PricingMap)
      → let r = longest_prefix model best prices in
        (best.len ≤ r.len)
        × All (λ e. (not (is_prefix e.0) || leb (suc (length (codes e.0))) r.len) ≡ true) prices
        × Found best r prices
  unfolding longest_prefix
  longest_prefix_lem best [] = (omega arith, tt, inl refl)
  longest_prefix_lem best ((key, price) ∷ prices) =
      let t = try_key model best key price in
      let (grows, within, one) = try_key-cases best key price in
      let (more, rest, found) = longest_prefix_lem t prices in
      (
        omega arith,
        (ground arith, rest),
        Found-next best t (longest_prefix model t prices) key price prices one found,
      )

  All-within :
      (len : ℕ) (prices : PricingMap)
      → All (λ e. (not (is_prefix e.0) || leb (suc (length (codes e.0))) (suc len)) ≡ true) prices
      → All (λ e. is_within len e ≡ true) prices
  All-within len [] h = tt
  All-within len ((key, price) ∷ prices) h = (ground (arith, h.0), All-within len prices h.1)

  none_within :
      (prices : PricingMap)
      → All (λ e. (not (is_prefix e.0) || leb (suc (length (codes e.0))) 0) ≡ true) prices
      → All (λ e. is_prefix e.0 ≡ false) prices
  none_within [] h = tt
  none_within ((key, price) ∷ prices) h = (ground (arith, h.0), none_within prices h.1)

  -- A model with a price of its own gets that price. A model without, whose name every object
  -- inherits a value for, gets a price of which every cost is 0 / 0. Any other gets the price of a
  -- key that is a prefix of it, and no key of the map that is a prefix of it is longer; it gets none
  -- only where no key is a prefix of it.
  pub lookup_price-longest :
      (inherited : String → Bool) (pricing : PricingMap)
      → ((price : ModelPrice) × (Dict.get model pricing ≡ some price)
          × (lookup_price inherited model pricing ≡ some price))
        ⊎ (Dict.get model pricing ≡ none)
          × (inherited model ≡ true)
          × (lookup_price inherited model pricing ≡ some no_price)
        ⊎ ((key : String) × (price : ModelPrice) × (Dict.get model pricing ≡ none)
            × (inherited model ≡ false)
            × (lookup_price inherited model pricing ≡ some price)
            × Memᴰ (key, price) pricing
            × (is_prefix key ≡ true)
            × All (λ e. is_within (length (codes key)) e ≡ true) pricing)
        ⊎ (Dict.get model pricing ≡ none)
          × (inherited model ≡ false)
          × (lookup_price inherited model pricing ≡ none)
          × All (λ e. is_prefix e.0 ≡ false) pricing
  unfolding lookup_price
  lookup_price-longest inherited pricing = elim (Option-cases (Dict.get model pricing)) [
    | inr (price, e) ↦ inl (price, e, rw (e, lookup_price))
    | inl e ↦ elim (Bool-cases (inherited model)) [
      | inl f ↦ inr (inl (e, f, rw (e, f, lookup_price)))
      | inr f ↦
          let (grows, within, found) =
            longest_prefix_lem (record { price = none; len = 0 }) pricing in
          elim found [
            | inl none_found ↦ inr (
                inr (
                  inr (
                    e,
                    f,
                    rw (e, f, lookup_price) (rw none_found),
                    none_within pricing (rw none_found at within),
                  )))
            | inr (key, price, m, pre, cost, len) ↦ inr (
                inr (
                  inl (
                    key,
                    price,
                    e,
                    f,
                    rw (e, f, lookup_price) cost,
                    m,
                    pre,
                    All-within (length (codes key)) pricing (rw len at within),
                  )))
          ]
    ]
  ]

-- ===== src/Traces/Double.antt =====
-- `Number(b)` of a natural BigInt: the binary floating point number nearest to it, which has 53
-- significant bits, and of two that are equally near the one whose last bit is 0. From 2 ^ 1077 on,
-- where the source has Infinity, the unit is not made larger.
use trace_bloom.Base.{
  ℕ, zero, suc, ◌+◌, ◌*◌, ◌/◌, ◌%◌, ◌≤◌, ◌<◌, ◌≡◌, refl, sym, ap, ◌∙◌, ◌⊎◌, inl, inr, false, ltb,
  nat_beq, ◌&&◌, if◌then◌else◌, arith, Bool-cases,
}
use native.Mathlib.Nat.{div-add-mod, mod-lt, mul-le-mul_right, mul_comm, add-mul}

-- 2 ^ 53.
abbrev pub exact_limit : ℕ
exact_limit = 9_007_199_254_740_992

abbrev doublings : ℕ
doublings = 1024

-- The first of unit, 2 * unit, 4 * unit and so on of which n has less than 2 ^ 53.
unfoldable pub unit_from : ℕ → ℕ → ℕ → ℕ
unit_from zero unit n = unit
unit_from (suc fuel) unit n =
    let rest = unit_from fuel (2 * unit) n in if ltb n (exact_limit * unit) then unit else rest

-- The multiple of a unit that is nearest, or the even one of two.
unfoldable pub nearest : ℕ → ℕ → ℕ
nearest unit n =
    let whole = n / unit in
    let rest = n % unit in
    if ltb (2 * rest) unit
    then whole * unit
    else if nat_beq (2 * rest) unit && nat_beq (whole % 2) 0
    then whole * unit
    else (whole + 1) * unit

unfoldable pub rounded : ℕ → ℕ → ℕ
unfolding unit_from nearest
rounded fuel n = if ltb n exact_limit then n else nearest (unit_from fuel 1 n) n

unfoldable pub to_number : ℕ → ℕ
unfolding rounded
to_number n = rounded doublings n

rounded-exact : (fuel n : ℕ) → n < exact_limit → rounded fuel n ≡ n
unfolding rounded
rounded-exact fuel n h = elim (Bool-cases (ltb n exact_limit)) [
  | inl e ↦ rw e refl
  | inr e ↦ absurd (ground arith)
]

pub to_number-exact : (n : ℕ) → n < exact_limit → to_number n ≡ n
unfolding to_number
to_number-exact n h = rounded-exact doublings n h

nearest-cases :
    (unit n : ℕ) → (nearest unit n ≡ (n / unit) * unit) ⊎ (nearest unit n ≡ (n / unit + 1) * unit)
unfolding nearest
nearest-cases unit n = elim (Bool-cases (ltb (2 * (n % unit)) unit)) [
  | inl e ↦ inl (rw e refl)
  | inr e ↦ elim (Bool-cases (nat_beq (2 * (n % unit)) unit && nat_beq (n / unit % 2) 0)) [
    | inl f ↦ inl (rw (e, f) refl)
    | inr f ↦ inr (rw (e, f) refl)
  ]
]

-- The multiple is the last one that is not above, or the next.
nearest-multiple_of :
    (unit n : ℕ) → (w : ℕ) × (nearest unit n ≡ w * unit) × (n / unit ≤ w) × (w ≤ n / unit + 1)
nearest-multiple_of unit n = elim (nearest-cases unit n) [
  | inl e ↦ (n / unit, e, omega arith, omega arith)
  | inr e ↦ (n / unit + 1, e, omega arith, omega arith)
]

-- Between two multiples.
div_unique : (q m unit n : ℕ) → q * unit ≤ n → n < (m + 1) * unit → q ≤ m
div_unique q m unit n h k = elim (Bool-cases (ltb m q)) [
  | inr e ↦ ground arith
  | inl e ↦
      let less : m + 1 ≤ q = ground arith in
      let more = mul-le-mul_right unit less in absurd (omega arith)
]

div-bounds : (unit n : ℕ) → 1 ≤ unit → ((n / unit) * unit ≤ n) × (n < (n / unit + 1) * unit)
div-bounds unit n p =
    let whole = div-add-mod n unit in
    let small = mod-lt n p in
    let back = mul_comm unit (n / unit) in
    let next = add-mul (n / unit) 1 unit in (omega arith, omega arith)

nearest-multiple : (unit m : ℕ) → 1 ≤ unit → nearest unit (m * unit) ≡ m * unit
unfolding nearest
nearest-multiple unit m p =
    let n = m * unit in
    let (low, high) = div-bounds unit n p in
    let next = add-mul m 1 unit in
    let above : n < (m + 1) * unit = omega arith in
    let a = div_unique (n / unit) m unit n low above in
    let b = div_unique m (n / unit) unit n (omega arith) high in
    let whole : n / unit ≡ m = omega arith in
    let none : n % unit ≡ 0 =
      omega (arith, div-add-mod n unit, mul_comm unit (n / unit), ap (λ q. q * unit) whole) in
    rw (none, whole) (ground arith)

unit_from-ge : (fuel unit n : ℕ) → unit ≤ unit_from fuel unit n
unfolding unit_from
unit_from-ge zero unit n = omega arith
unit_from-ge (suc fuel) unit n = ground (arith, unit_from-ge fuel (2 * unit) n)

-- No unit is larger than n needs.
unit_from-low :
    (fuel unit n : ℕ) → exact_limit * unit ≤ 2 * n → exact_limit * unit_from fuel unit n ≤ 2 * n
unfolding unit_from
unit_from-low zero unit n h = h
unit_from-low (suc fuel) unit n h = elim (Bool-cases (ltb n (exact_limit * unit))) [
  | inl e ↦ rw e h
  | inr e ↦ rw e (unit_from-low fuel (2 * unit) n (ground arith))
]

unit_from-stop : (fuel unit n : ℕ) → n < exact_limit * unit → unit_from fuel unit n ≡ unit
unfolding unit_from
unit_from-stop zero unit n h = refl
unit_from-stop (suc fuel) unit n h = elim (Bool-cases (ltb n (exact_limit * unit))) [
  | inl e ↦ rw e refl
  | inr e ↦ absurd (ground arith)
]

-- What was rounded to a multiple of the unit of n is a multiple of its own unit.
unit_from-again :
    (fuel unit n w r u : ℕ)
    → 1 ≤ unit
    → unit_from fuel unit n ≡ u
    → r ≡ w * u
    → (n < exact_limit * u → w ≤ exact_limit)
    → exact_limit * u ≤ 2 * r
    → (m : ℕ) × (r ≡ m * unit_from fuel unit r)
unfolding unit_from
unit_from-again zero unit n w r u p h eq cap low = (w, rw h eq)
unit_from-again (suc fuel) unit n w r u p h eq cap low =
    elim (Bool-cases (ltb n (exact_limit * unit))) [
      | inl e ↦
          let same : unit ≡ u = rw e at h in
          let most : w ≤ exact_limit = cap (rw (← same) (ground arith)) in
          let bound = mul-le-mul_right u most in
          elim (Bool-cases (ltb r (exact_limit * unit))) [
            | inl f ↦ rw f (w, rw same eq)
            | inr f ↦
                let full : r ≡ exact_limit * unit = ground arith in
                rw f (
                  4_503_599_627_370_496,
                  rw (unit_from-stop fuel (2 * unit) r (omega arith)) (omega arith),
                )
          ]
      | inr e ↦
          let later : unit_from fuel (2 * unit) n ≡ u = rw e at h in
          let grows = unit_from-ge fuel (2 * unit) n in
          let past : ltb r (exact_limit * unit) ≡ false = ground arith in
          rw past (unit_from-again fuel (2 * unit) n w r u (omega arith) later eq cap low)
    ]

-- A multiple of the unit of n, next to n.
rounded-multiple :
    (fuel n w r u : ℕ)
    → exact_limit ≤ n
    → unit_from fuel 1 n ≡ u
    → r ≡ w * u
    → n / u ≤ w
    → w ≤ n / u + 1
    → rounded fuel r ≡ r
unfolding rounded
rounded-multiple fuel n w r u big h eq least most =
    let one : 1 ≤ u = rw h at (unit_from-ge fuel 1 n) in
    let low : exact_limit * u ≤ 2 * n = rw h at (unit_from-low fuel 1 n (omega arith)) in
    let (below, above) = div-bounds u n one in
    let half : 4_503_599_627_370_496 ≤ n / u =
      div_unique 4_503_599_627_370_496 (n / u) u n (omega arith) above in
    let up = mul-le-mul_right u half in
    let more = mul-le-mul_right u least in
    let cap : n < exact_limit * u → w ≤ exact_limit =
      λ k. omega (arith, div_unique (n / u) 9_007_199_254_740_991 u n below (omega arith)) in
    let (m, again) = unit_from-again fuel 1 n w r u (omega arith) h eq cap (omega arith) in
    elim (Bool-cases (ltb r exact_limit)) [
      | inl e ↦ rw e refl
      | inr e ↦ rw e (whole fuel r m again)
    ]
  where
    whole : (fuel r m : ℕ) → r ≡ m * unit_from fuel 1 r → nearest (unit_from fuel 1 r) r ≡ r
    whole fuel r m again =
        ap (nearest (unit_from fuel 1 r)) again
        ∙ nearest-multiple (unit_from fuel 1 r) m (unit_from-ge fuel 1 r)
        ∙ sym again

rounded-rounded : (fuel n : ℕ) → rounded fuel (rounded fuel n) ≡ rounded fuel n
unfolding rounded
rounded-rounded fuel n = elim (Bool-cases (ltb n exact_limit)) [
  | inl e ↦ rw e (rw e refl)
  | inr e ↦
      let u = unit_from fuel 1 n in
      let (w, eq, least, most) = nearest-multiple_of u n in
      rw e (rounded-multiple fuel n w (nearest u n) u (ground arith) refl eq least most)
]

-- A rounded number is a number.
pub to_number-to_number : (n : ℕ) → to_number (to_number n) ≡ to_number n
unfolding to_number
to_number-to_number n = rounded-rounded doublings n

-- ===== src/Evaluators/Scale.antt =====
-- The score that normalize gives (packages/eval/src/judge.ts).
use trace_bloom.Base.{
  ℕ, ◌-◌, ◌≤◌, ◌≡◌, refl, ap, inl, inr, Bool, true, false, arith, leb, Bool-cases,
}
use trace_bloom.Base.Signed.{ℤ, pos, negsuc, leb_ℤ, sub_ℕ, sub_ℤ, max_ℤ, min_ℤ, quotient}
use trace_bloom.Evaluators.Judge.{JudgeConfig, normalize}

-- Between 0 and 1.
abbrev pub IsUnit : ℤ × ℕ → Type 0
IsUnit (pos num, den) = (num ≤ den) × (1 ≤ den)
IsUnit (negsuc num, den) = ⊥

leb_ℤ-refl : (a : ℤ) → leb_ℤ a a ≡ true
leb_ℤ-refl (pos m) = ground arith
leb_ℤ-refl (negsuc m) = ground arith

leb_ℤ-total : (a b : ℤ) → leb_ℤ a b ≡ false → leb_ℤ b a ≡ true
leb_ℤ-total (pos m) (pos n) h = ground arith
leb_ℤ-total (pos m) (negsuc n) h = refl
leb_ℤ-total (negsuc m) (pos n) h = absurd (cc)
leb_ℤ-total (negsuc m) (negsuc n) h = ground arith

leb_ℤ-trans : (a b c : ℤ) → leb_ℤ a b ≡ true → leb_ℤ b c ≡ true → leb_ℤ a c ≡ true
leb_ℤ-trans (pos l) (pos m) (pos n) h k = ground arith
leb_ℤ-trans (pos l) (pos m) (negsuc n) h k = absurd (cc)
leb_ℤ-trans (pos l) (negsuc m) c h k = absurd (cc)
leb_ℤ-trans (negsuc l) (pos m) (pos n) h k = refl
leb_ℤ-trans (negsuc l) (pos m) (negsuc n) h k = absurd (cc)
leb_ℤ-trans (negsuc l) (negsuc m) (pos n) h k = refl
leb_ℤ-trans (negsuc l) (negsuc m) (negsuc n) h k = ground arith

leb_ℤ-antisym : (a b : ℤ) → leb_ℤ a b ≡ true → leb_ℤ b a ≡ true → a ≡ b
leb_ℤ-antisym (pos m) (pos n) h k = ap pos (ground arith)
leb_ℤ-antisym (pos m) (negsuc n) h k = absurd (cc)
leb_ℤ-antisym (negsuc m) (pos n) h k = absurd (cc)
leb_ℤ-antisym (negsuc m) (negsuc n) h k = ap negsuc (ground arith)

sub_ℕ-ge : (m n : ℕ) → leb n m ≡ true → sub_ℕ m n ≡ pos (m - n)
sub_ℕ-ge m n h = ground arith

sub_ℕ-lt : (m n : ℕ) → leb n m ≡ false → sub_ℕ m n ≡ negsuc (n - m - 1)
sub_ℕ-lt m n h = ground arith

-- A number within a scale that is not turned around.
within-IsUnit :
    (low c high : ℤ)
    → leb_ℤ low c ≡ true
    → leb_ℤ c high ≡ true
    → leb_ℤ high low ≡ false
    → IsUnit (quotient (sub_ℤ c low) (sub_ℤ high low))
within-IsUnit (pos l) (pos c) (pos h) a b d =
    rw (sub_ℕ-ge c l a, sub_ℕ-ge h l (ground arith)) (ground arith, ground arith)
within-IsUnit (pos l) (pos c) (negsuc h) a b d = absurd (cc)
within-IsUnit (pos l) (negsuc c) high a b d = absurd (cc)
within-IsUnit (negsuc l) (pos c) (pos h) a b d = (ground arith, ground arith)
within-IsUnit (negsuc l) (pos c) (negsuc h) a b d = absurd (cc)
within-IsUnit (negsuc l) (negsuc c) (pos h) a b d = rw (sub_ℕ-ge l c a) (ground arith, ground arith)
within-IsUnit (negsuc l) (negsuc c) (negsuc h) a b d =
    rw (sub_ℕ-ge l c a, sub_ℕ-ge l h (ground arith)) (ground arith, ground arith)

-- The difference of the ends by itself, where the scale is turned around.
turned-IsUnit :
    (low high : ℤ) → leb_ℤ low high ≡ false → IsUnit (quotient (sub_ℤ high low) (sub_ℤ high low))
turned-IsUnit (pos l) (pos h) d = rw (sub_ℕ-lt h l d) (omega arith, omega arith)
turned-IsUnit (pos l) (negsuc h) d = (omega arith, omega arith)
turned-IsUnit (negsuc l) (pos h) d = absurd (cc)
turned-IsUnit (negsuc l) (negsuc h) d = rw (sub_ℕ-lt l h d) (omega arith, omega arith)

sub_ℤ-self : (a : ℤ) → sub_ℤ a a ≡ pos 0
sub_ℤ-self (pos m) = ground arith
sub_ℤ-self (negsuc m) = ground arith

quotient-zero : (b : ℤ) → (quotient (pos 0) b).0 ≡ pos 0
quotient-zero (pos n) = refl
quotient-zero (negsuc n) = refl

quotient_self :
    (low high : ℤ)
    → leb_ℤ high low ≡ false
    → let q = quotient (sub_ℤ high low) (sub_ℤ high low) in q.0 ≡ pos q.1
quotient_self (pos l) (pos h) d = rw (sub_ℕ-ge h l (ground arith)) refl
quotient_self (pos l) (negsuc h) d = absurd (cc)
quotient_self (negsuc l) (pos h) d = refl
quotient_self (negsuc l) (negsuc h) d = rw (sub_ℕ-ge l h (ground arith)) refl

abbrev clamp : ℤ → ℤ → ℤ → ℤ
clamp raw low high = min_ℤ (max_ℤ raw low) high

max_ℤ-ge : (raw low : ℤ) → leb_ℤ low (max_ℤ raw low) ≡ true
max_ℤ-ge raw low = elim (Bool-cases (leb_ℤ raw low)) [
  | inl e ↦ rw e (leb_ℤ-refl low)
  | inr e ↦ rw e (leb_ℤ-total raw low e)
]

clamp-within :
    (raw low high : ℤ)
    → leb_ℤ high low ≡ false
    → (leb_ℤ low (clamp raw low high) ≡ true) × (leb_ℤ (clamp raw low high) high ≡ true)
clamp-within raw low high d = elim (Bool-cases (leb_ℤ (max_ℤ raw low) high)) [
  | inl e ↦ rw e (max_ℤ-ge raw low, e)
  | inr e ↦ rw e (leb_ℤ-total high low d, leb_ℤ-refl high)
]

clamp-turned :
    (raw low high : ℤ) → leb_ℤ high low ≡ true → leb_ℤ low high ≡ false → clamp raw low high ≡ high
clamp-turned raw low high d f = elim (Bool-cases (leb_ℤ (max_ℤ raw low) high)) [
  | inl e ↦ absurd (above (leb_ℤ-trans low (max_ℤ raw low) high (max_ℤ-ge raw low) e) f)
  | inr e ↦ rw e refl
]
  where
    above : {b : Bool} → b ≡ true → b ≡ false → ⊥
    above h k = cc

clamp-low :
    (raw low high : ℤ) → leb_ℤ raw low ≡ true → leb_ℤ low high ≡ true → clamp raw low high ≡ low
clamp-low raw low high e f = rw (e, f) refl

clamp-high :
    (raw low high : ℤ) → leb_ℤ high raw ≡ true → leb_ℤ high low ≡ false → clamp raw low high ≡ high
clamp-high raw low high e d = elim (Bool-cases (leb_ℤ (max_ℤ raw low) high)) [
  | inr f ↦ rw f refl
  | inl f ↦ rw f (leb_ℤ-antisym (max_ℤ raw low) high f (above raw low high e d))
]
  where
    above :
        (raw low high : ℤ)
        → leb_ℤ high raw ≡ true
        → leb_ℤ high low ≡ false
        → leb_ℤ high (max_ℤ raw low) ≡ true
    above raw low high e d = elim (Bool-cases (leb_ℤ raw low)) [
      | inl g ↦ rw g (leb_ℤ-trans high raw low e g)
      | inr g ↦ rw g e
    ]

-- A judge's score lies between 0 and 1, whatever integers the raw score and the ends of the scale
-- are, in either order. It is 0 for a raw score at or below the lower end, and 1 for one at or above
-- the upper end, where the upper end is the greater one.
pub normalize-bounds :
    (raw : ℤ) (c : JudgeConfig)
    → IsUnit (normalize raw c)
      × (leb_ℤ raw c.scale_min ≡ true
          → leb_ℤ c.scale_min c.scale_max ≡ true
          → (normalize raw c).0 ≡ pos 0)
      × (leb_ℤ c.scale_max raw ≡ true
          → leb_ℤ c.scale_max c.scale_min ≡ false
          → (normalize raw c).0 ≡ pos (normalize raw c).1)
unfolding normalize
normalize-bounds raw c =
    let low = c.scale_min in
    let high = c.scale_max in
    elim (Bool-cases (leb_ℤ high low)) [
      | inr d ↦
          let (a, b) = clamp-within raw low high d in
          rw d (
            within-IsUnit low (clamp raw low high) high a b d,
            λ e f. rw (clamp-low raw low high e f, sub_ℤ-self low) (quotient-zero _),
            λ e f. rw (clamp-high raw low high e d) (quotient_self low high d),
          )
      | inl d ↦ elim (Bool-cases (leb_ℤ low high)) [
        | inl f ↦ rw (d, f) ((omega arith, omega arith), λ e g. refl, λ e g. absurd (cc))
        | inr f ↦
            rw (d, f, clamp-turned raw low high d f)
              (turned-IsUnit low high f, λ e g. absurd (cc), λ e g. absurd (cc))
      ]
    ]

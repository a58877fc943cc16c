-- ===== src/Regression/Detect.antt =====
-- Exactly the variants that fell by more than a threshold are reported.
use trace_bloom.Base.{
  ◌-◌, ◌≤◌, ◌<◌, ◌≡◌, refl, ◌↔◌, ◌⊎◌, inl, inr, ◌≢◌, Bool, true, false, ◌||◌, some, List, [], ◌∷◌,
  arith, ltb, if◌then◌else◌, ◌==◌, string_eq, Bool-cases, Option-cases,
}
use mathlib.Core.List.{Memᴰ}
use mathlib.Core.List.Memᴰ
use trace_bloom.Regression.{
  VariantStats, RegressionThresholds, Regression, mean_regression, pass_regression, select_baseline,
  regressions_of, detect_against, detect_regressions,
}

-- What a report says: an eligible variant other than the baseline lost more than the threshold.
abbrev pub Fell : RegressionThresholds → VariantStats → VariantStats → Regression → Type 0
Fell t b c r =
    (c.variant ≢ b.variant)
    × (t.min_samples ≤ c.sample_count)
    × ((t.mean_score_drop < b.mean - c.mean) × (r ≡ mean_regression t b c)
        ⊎ (t.pass_rate_drop < b.passing - c.passing) × (r ≡ pass_regression t b c))

abbrev mean_fell : RegressionThresholds → VariantStats → VariantStats → Bool
mean_fell t b c = ltb t.mean_score_drop (b.mean - c.mean)

abbrev pass_fell : RegressionThresholds → VariantStats → VariantStats → Bool
pass_fell t b c = ltb t.pass_rate_drop (b.passing - c.passing)

abbrev mean_part : RegressionThresholds → VariantStats → VariantStats → List Regression
mean_part t b c = if mean_fell t b c then mean_regression t b c ∷ [] else []

abbrev pass_part : RegressionThresholds → VariantStats → VariantStats → List Regression
pass_part t b c = if pass_fell t b c then pass_regression t b c ∷ [] else []

module _ {ℓ} {A : Type ℓ} where
  Memᴰ-if : (x a : A) (p : Bool) → Memᴰ x (if p then a ∷ [] else []) → (p ≡ true) × (x ≡ a)
  Memᴰ-if x a true m = (refl, Memᴰ.eq_of_singleton m)
  Memᴰ-if x a false m = absurd (Memᴰ.not-nil m)

  if-Memᴰ : (x a : A) (p : Bool) → p ≡ true → x ≡ a → Memᴰ x (if p then a ∷ [] else [])
  if-Memᴰ x a p h e = rw h (Memᴰ.head e)

skipped : RegressionThresholds → VariantStats → VariantStats → Bool
skipped t b c = c.variant == b.variant || ltb c.sample_count t.min_samples

regressions_of-Fell :
    (t : RegressionThresholds) (b c : VariantStats) (r : Regression)
    → Memᴰ r (regressions_of t b c)
    → Fell t b c r
unfolding regressions_of skipped
regressions_of-Fell t b c r m = elim (Bool-cases (skipped t b c)) [
  | inl h ↦ absurd (Memᴰ.not-nil (rw h at m))
  | inr h ↦ (
    ground (arith, string_eq.beq_iff c.variant b.variant),
    ground arith,
    elim (Memᴰ.append_cases (mean_part t b c) {t = pass_part t b c} (rw h at m)) [
      | inl mean ↦
          let (k, e) = Memᴰ-if r (mean_regression t b c) (mean_fell t b c) mean in
          inl (ground arith, e)
      | inr pass ↦
          let (k, e) = Memᴰ-if r (pass_regression t b c) (pass_fell t b c) pass in
          inr (ground arith, e)
    ],
  )
]

Fell-regressions_of :
    (t : RegressionThresholds) (b c : VariantStats) (r : Regression)
    → Fell t b c r
    → Memᴰ r (regressions_of t b c)
unfolding regressions_of skipped
Fell-regressions_of t b c r (other, enough, fell) =
    let h : skipped t b c ≡ false = ground (arith, string_eq.beq_iff c.variant b.variant) in
    rw h (elim fell [
      | inl (k, e) ↦
          Memᴰ.append_left (pass_part t b c)
            (if-Memᴰ r (mean_regression t b c) (mean_fell t b c) (ground arith) e)
      | inr (k, e) ↦
          Memᴰ.append_right (mean_part t b c)
            (if-Memᴰ r (pass_regression t b c) (pass_fell t b c) (ground arith) e)
    ])

detect_against-Fell :
    (t : RegressionThresholds) (b : VariantStats) (r : Regression) (stats : List VariantStats)
    → Memᴰ r (detect_against t b stats)
    → (c : VariantStats) × Memᴰ c stats × Fell t b c r
unfolding detect_against
detect_against-Fell t b r [] m = absurd (Memᴰ.not-nil m)
detect_against-Fell t b r (s ∷ stats) m = elim (Memᴰ.append_cases (regressions_of t b s) m) [
  | inl here ↦ (s, Memᴰ.head refl, regressions_of-Fell t b s r here)
  | inr rest ↦
      let (c, inside, fell) = detect_against-Fell t b r stats rest in (c, Memᴰ.tail inside, fell)
]

Fell-detect_against :
    (t : RegressionThresholds) (b c : VariantStats) (r : Regression) (stats : List VariantStats)
    → Memᴰ c stats
    → Fell t b c r
    → Memᴰ r (detect_against t b stats)
unfolding detect_against
Fell-detect_against t b c r [] m f = absurd (Memᴰ.not-nil m)
Fell-detect_against t b c r (s ∷ stats) m f = elim (Memᴰ.cases_cons m) [
  | inl same ↦ Memᴰ.append_left _ (Fell-regressions_of t b s r (rw same at f))
  | inr rest ↦ Memᴰ.append_right (regressions_of t b s) (Fell-detect_against t b c r stats rest f)
]

-- A regression is reported exactly if a baseline was chosen, and for some variant among the
-- statistics, other than the baseline and with enough samples, the mean score or the pass rate lies
-- below that of the baseline by more than its threshold; the report then carries that metric's
-- values.
pub detect_regressions_iff :
    (stats : List VariantStats) (t : RegressionThresholds) (r : Regression)
    → Memᴰ r (detect_regressions stats t)
      ↔ (b : VariantStats) × (select_baseline stats t ≡ some b)
        × ((c : VariantStats) × Memᴰ c stats × Fell t b c r)
unfolding detect_regressions
detect_regressions_iff stats t r = (
  λ m. elim (Option-cases (select_baseline stats t)) [
    | inl e ↦ absurd (Memᴰ.not-nil (rw (e, detect_regressions) at m))
    | inr (b, e) ↦ (b, e, detect_against-Fell t b r stats (rw (e, detect_regressions) at m))
  ],
  λ (b, e, (c, inside, fell)).
      rw (e, detect_regressions) (Fell-detect_against t b c r stats inside fell),
)

-- ===== src/Regression/Baseline.antt =====
-- The baseline is the best of the variants with enough samples, or the one that is named.
use trace_bloom.Base.{
  ◌≤◌, ◌≡◌, refl, inl, inr, true, some, List, [], ◌∷◌, foldl, arith, ltb, keep, string_eq,
  Bool-cases,
}
use mathlib.Core.List.{Memᴰ}
use mathlib.Core.List.Memᴰ
use trace_bloom.Text.{is_empty}
use trace_bloom.Regression.{
  VariantStats, RegressionThresholds, is_eligible, better, best_of, select_baseline,
}

keep-Memᴰ :
    (t : RegressionThresholds) (s : VariantStats) (stats : List VariantStats)
    → Memᴰ s (keep (is_eligible t) stats)
    → Memᴰ s stats × (t.min_samples ≤ s.sample_count)
keep-Memᴰ t s [] m = absurd (Memᴰ.not-nil m)
keep-Memᴰ t s (x ∷ stats) m = elim (Bool-cases (is_eligible t x)) [
  | inl h ↦ elim (Memᴰ.cases_cons (rw h at m)) [
    | inl same ↦ (Memᴰ.head same, ground arith)
    | inr rest ↦ let (a, b) = keep-Memᴰ t s stats rest in (Memᴰ.tail a, b)
  ]
  | inr h ↦ let (a, b) = keep-Memᴰ t s stats (rw h at m) in (Memᴰ.tail a, b)
]

Memᴰ-keep :
    (t : RegressionThresholds) (s : VariantStats) (stats : List VariantStats)
    → Memᴰ s stats
    → t.min_samples ≤ s.sample_count
    → Memᴰ s (keep (is_eligible t) stats)
Memᴰ-keep t s [] m h = absurd (Memᴰ.not-nil m)
Memᴰ-keep t s (x ∷ stats) m h = elim (Memᴰ.cases_cons m) [
  | inl same ↦ let e : is_eligible t x ≡ true = ground (arith) in rw e (Memᴰ.head same)
  | inr rest ↦ elim (Bool-cases (is_eligible t x)) [
    | inl k ↦ rw k (Memᴰ.tail (Memᴰ-keep t s stats rest h))
    | inr k ↦ rw k (Memᴰ-keep t s stats rest h)
  ]
]

best-Memᴰ : (s : VariantStats) (stats : List VariantStats) → Memᴰ (foldl better s stats) (s ∷ stats)
best-Memᴰ s [] = Memᴰ.head refl
best-Memᴰ s (x ∷ stats) = elim (Bool-cases (ltb s.mean x.mean)) [
  | inl h ↦ rw h (Memᴰ.tail (best-Memᴰ x stats))
  | inr h ↦ elim (Memᴰ.cases_cons (best-Memᴰ s stats)) [
    | inl same ↦ rw h (Memᴰ.head same)
    | inr rest ↦ rw h (Memᴰ.tail (Memᴰ.tail rest))
  ]
]

better-start : (s x : VariantStats) → s.mean ≤ (better s x).mean
better-start s x = ground arith

best-start : (s : VariantStats) (stats : List VariantStats) → s.mean ≤ (foldl better s stats).mean
best-start s [] = omega arith
best-start s (x ∷ stats) = omega (arith, best-start (better s x) stats, better-start s x)

best-le :
    (s x : VariantStats) (stats : List VariantStats)
    → Memᴰ x stats
    → x.mean ≤ (foldl better s stats).mean
best-le s x [] m = absurd (Memᴰ.not-nil m)
best-le s x (y ∷ stats) m = elim (Memᴰ.cases_cons m) [
  | inl same ↦ ground (arith, best-start (better s y) stats)
  | inr rest ↦ best-le (better s y) x stats rest
]

best_of-lem :
    (b : VariantStats) (stats : List VariantStats)
    → best_of stats ≡ some b
    → Memᴰ b stats × ((s : VariantStats) → Memᴰ s stats → s.mean ≤ b.mean)
best_of-lem b [] e = absurd (cc)
best_of-lem b (x ∷ stats) e =
    let same : foldl better x stats ≡ b = ground arith in
    rw (← same) (
      best-Memᴰ x stats,
      λ s m. elim (Memᴰ.cases_cons m) [
        | inl first ↦ ground (arith, best-start x stats)
        | inr rest ↦ best-le x s stats rest
      ],
    )

-- With no baseline named, the chosen one is among the variants with enough samples, and no variant
-- with enough samples has a higher mean score.
pub select_baseline-best :
    (stats : List VariantStats) (t : RegressionThresholds) (b : VariantStats)
    → is_empty t.baseline_variant ≡ true
    → select_baseline stats t ≡ some b
    → Memᴰ b stats
      × (t.min_samples ≤ b.sample_count)
      × ((s : VariantStats) → Memᴰ s stats → t.min_samples ≤ s.sample_count → s.mean ≤ b.mean)
unfolding select_baseline
select_baseline-best stats t b n e =
    let (m, top) = best_of-lem b (keep (is_eligible t) stats) (rw n at e) in
    let (inside, enough) = keep-Memᴰ t b stats m in
    (inside, enough, λ s k h. top s (Memᴰ-keep t s stats k h))

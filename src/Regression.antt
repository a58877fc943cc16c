-- ===== src/Regression.antt =====
-- apps/eval-runner/src/regression.ts: which variants have regressed against a baseline. Scores,
-- rates and thresholds are numbers of one small unit. A regression is reported with a negative
-- delta only, and `drop` is that delta without its sign.
pub mod Baseline
pub mod Detect
pub mod Tests
use trace_bloom.Base.{
  ℕ, ◌-◌, String, Bool, true, false, ◌||◌, Option, none, some, List, [], ◌∷◌, ◌++◌, foldl, ltb, leb,
  if◌then◌else◌, keep, ◌==◌, string_eq,
}
use trace_bloom.Text.{is_empty}

-- RegressionMetric, of packages/db.
pub data RegressionMetric : Type 0 where
  mean_score pass_rate : RegressionMetric

pub record VariantStats : Type 0 where
  pub variant : String
  pub mean : ℕ
  pub passing : ℕ
  pub sample_count : ℕ

-- RegressionThresholds: an empty baseline variant is one that is not set.
pub record RegressionThresholds : Type 0 where
  pub min_samples : ℕ
  pub mean_score_drop : ℕ
  pub pass_rate_drop : ℕ
  pub baseline_variant : String

pub record Regression : Type 0 where
  pub metric : RegressionMetric
  pub variant : String
  pub baseline_variant : String
  pub baseline_value : ℕ
  pub current_value : ℕ
  pub drop : ℕ
  pub threshold : ℕ
  pub sample_count : ℕ

-- `s.sampleCount >= thresholds.minSamples`.
abbrev pub is_eligible : RegressionThresholds → VariantStats → Bool
is_eligible t s = leb t.min_samples s.sample_count

-- `eligible.find(...)`.
abbrev pub find_variant : String → List VariantStats → Option VariantStats
find_variant name [] = none
find_variant name (s ∷ stats) = if s.variant == name then some s else find_variant name stats

-- The step of the `reduce`.
abbrev pub better : VariantStats → VariantStats → VariantStats
better best s = if ltb best.mean s.mean then s else best

abbrev pub best_of : List VariantStats → Option VariantStats
best_of [] = none
best_of (s ∷ stats) = some (foldl better s stats)

-- selectBaseline.
unfoldable pub select_baseline : List VariantStats → RegressionThresholds → Option VariantStats
select_baseline stats t =
    let eligible = keep (is_eligible t) stats in
    if is_empty t.baseline_variant
    then best_of eligible
    else find_variant t.baseline_variant eligible

abbrev pub mean_regression : RegressionThresholds → VariantStats → VariantStats → Regression
mean_regression t baseline candidate = record {
  metric = mean_score;
  variant = candidate.variant;
  baseline_variant = baseline.variant;
  baseline_value = baseline.mean;
  current_value = candidate.mean;
  drop = baseline.mean - candidate.mean;
  threshold = t.mean_score_drop;
  sample_count = candidate.sample_count;
}

abbrev pub pass_regression : RegressionThresholds → VariantStats → VariantStats → Regression
pass_regression t baseline candidate = record {
  metric = pass_rate;
  variant = candidate.variant;
  baseline_variant = baseline.variant;
  baseline_value = baseline.passing;
  current_value = candidate.passing;
  drop = baseline.passing - candidate.passing;
  threshold = t.pass_rate_drop;
  sample_count = candidate.sample_count;
}

-- The body of the loop: what it pushes for one candidate.
unfoldable pub regressions_of : RegressionThresholds → VariantStats → VariantStats → List Regression
regressions_of t baseline candidate =
    if candidate.variant == baseline.variant || ltb candidate.sample_count t.min_samples
    then []
    else (if ltb t.mean_score_drop (baseline.mean - candidate.mean)
        then mean_regression t baseline candidate ∷ []
        else [])
      ++ (if ltb t.pass_rate_drop (baseline.passing - candidate.passing)
          then pass_regression t baseline candidate ∷ []
          else [])

unfoldable pub detect_against :
    RegressionThresholds → VariantStats → List VariantStats → List Regression
unfolding regressions_of
detect_against t baseline [] = []
detect_against t baseline (candidate ∷ stats) =
    regressions_of t baseline candidate ++ detect_against t baseline stats

-- detectRegressions.
unfoldable pub detect_regressions : List VariantStats → RegressionThresholds → List Regression
unfolding select_baseline detect_against
detect_regressions stats t = elim (select_baseline stats t) [
  | none ↦ []
  | some baseline ↦ detect_against t baseline stats
]

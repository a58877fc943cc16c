-- ===== src/Regression/Tests.antt =====
-- Runs of regression.ts on small inputs, and the theorems at inputs that meet their hypotheses.
use trace_bloom.Base.{◌≤◌, ◌≡◌, refl, ◌↔◌, List, [], ◌∷◌, some, string_eq}
use mathlib.Core.List.{Memᴰ}
use trace_bloom.Text.{is_empty}
use trace_bloom.Regression.{
  VariantStats, RegressionThresholds, mean_regression, select_baseline, regressions_of,
  detect_against, detect_regressions,
}
use trace_bloom.Regression.Baseline.{select_baseline-best}
use trace_bloom.Regression.Detect.{Fell, detect_regressions_iff}

abbrev stable : VariantStats
stable = record { variant = "v1"; mean = 90; passing = 95; sample_count = 40 }

abbrev worse : VariantStats
worse = record { variant = "v2"; mean = 70; passing = 94; sample_count = 40 }

abbrev rare : VariantStats
rare = record { variant = "v3"; mean = 99; passing = 10; sample_count = 3 }

abbrev stats : List VariantStats
stats = worse ∷ stable ∷ rare ∷ []

abbrev thresholds : RegressionThresholds
thresholds = record {
  min_samples = 20;
  mean_score_drop = 5;
  pass_rate_drop = 5;
  baseline_variant = "";
}

regression_runs :
    (select_baseline stats thresholds ≡ some stable)
    × (detect_regressions stats thresholds ≡ mean_regression thresholds stable worse ∷ [])
unfolding select_baseline detect_regressions detect_against regressions_of is_empty
regression_runs = (refl, refl)

select_baseline-best_example :
    Memᴰ stable stats
    × (20 ≤ stable.sample_count)
    × ((s : VariantStats) → Memᴰ s stats → 20 ≤ s.sample_count → s.mean ≤ stable.mean)
unfolding is_empty
select_baseline-best_example = select_baseline-best stats thresholds stable refl regression_runs.0

detect_regressions_iff_example :
    Memᴰ (mean_regression thresholds stable worse) (detect_regressions stats thresholds)
    ↔ (b : VariantStats) × (select_baseline stats thresholds ≡ some b)
      × ((c : VariantStats) × Memᴰ c stats
          × Fell thresholds b c (mean_regression thresholds stable worse))
detect_regressions_iff_example =
    detect_regressions_iff stats thresholds (mean_regression thresholds stable worse)

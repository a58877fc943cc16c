-- ===== src/Runner/Keeps.antt =====
-- A regression pass leaves the watermarks and the results as they are.
use trace_bloom.Base.{
  ℕ, ◌-◌, ◌≡◌, refl, ◌∙◌, inl, inr, String, List, [], ◌∷◌, elem, string_eq, Option-cases,
  Bool-cases,
}
use trace_bloom.Regression.{Regression, detect_regressions}
use trace_bloom.Runner.{EvalDefinition}
use trace_bloom.Runner.Run.{
  Result, ok, err, Store, M, continue_with, RunnerConfig, Services, EvalRunSummary,
}
use trace_bloom.Runner.Once.{key_of, raise_one, raise_all, run_regression_pass, recent_keys}
use trace_bloom.Runner.Adds.{Result-cases}

-- The watermarks and the results stay as they are.
abbrev pub Keeps : {A : Type 0} → Store → Result A × Store → Type 0
Keeps s out = (out.1.watermarks ≡ s.watermarks) × (out.1.results ≡ s.results)

pub continue_with-Keeps :
    {A B : Type 0} (s : Store) (out : Result A × Store) (f : A → M B)
    → Keeps s out
    → ((a : A) (t : Store) → Keeps t (f a t))
    → Keeps s (continue_with out f)
continue_with-Keeps s (ok a, t) f k h = ((h a t).0 ∙ k.0, (h a t).1 ∙ k.1)
continue_with-Keeps s (err e, t) f k h = k

module _ (c : RunnerConfig) (sv : Services) (def : EvalDefinition) (now : ℕ) where
  raise_one-Keeps :
      (seen : List String) (r : Regression) (raised : ℕ) (s : Store)
      → Keeps s (raise_one c sv def seen r raised s)
  unfolding raise_one
  raise_one-Keeps seen r raised s = elim (Bool-cases (elem (key_of r) seen)) [
    | inl e ↦ rw e (refl, refl)
    | inr e ↦ elim (Option-cases sv.raise_error) [
      | inl q ↦ rw (e, q) (refl, refl)
      | inr (m, q) ↦ rw (e, q) (refl, refl)
    ]
  ]

  raise_all-Keeps :
      (seen : List String) (rs : List Regression) (raised : ℕ) (s : Store)
      → Keeps s (raise_all c sv def seen rs raised s)
  unfolding raise_all
  raise_all-Keeps seen [] raised s = (refl, refl)
  raise_all-Keeps seen (r ∷ rs) raised s =
      continue_with-Keeps s (raise_one c sv def seen r raised s) (λ n. raise_all c sv def seen rs n)
        (raise_one-Keeps seen r raised s) (λ n t. raise_all-Keeps seen rs n t)

  pub run_regression_pass-Keeps :
      (summary : EvalRunSummary) (s : Store) → Keeps s (run_regression_pass c sv def now summary s)
  unfolding run_regression_pass
  run_regression_pass-Keeps summary s = elim (Result-cases sv.variant_stats) [
    | inr (e, q) ↦ rw q (refl, refl)
    | inl (stats, q) ↦
        let seen = recent_keys def.id (now - c.regression_window_ms) s in
        let found = detect_regressions stats c.thresholds in
        rw q (
          continue_with-Keeps s (raise_all c sv def seen found 0 s) _
            (raise_all-Keeps seen found 0 s) (λ n t. (refl, refl)))
  ]

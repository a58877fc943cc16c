-- ===== src/Runner/Summaries.antt =====
-- The summaries that runOnce returns.
use trace_bloom.Base.{
  ℕ, ◌-◌, ◌≡◌, refl, ap, String, string_eq, Option, List, [], ◌∷◌, ◌++◌, map, arith, length,
  Option-cases, inl, inr,
}
use trace_bloom.Regression.{detect_regressions}
use trace_bloom.Json.{Json}
use trace_bloom.Dict
use trace_bloom.Runner.Adds.{Result-cases, score_sampled-Adds}
use trace_bloom.Results.Promote.{SdkEvaluationEventRow}
use trace_bloom.Runner.{SpanRow, EvalDefinition}
use trace_bloom.Runner.Run.{
  Result, ok, err, Store, continue_with, RunnerConfig, Services, BuiltEvaluator, EvalRunSummary,
  no_summary, build_evaluator,
}
use trace_bloom.Runner.Once.{
  since_of, raise_all, run_regression_pass, recent_keys, with_regressions, max_start, scan,
  scan_any, run_eval, run_all, run_once, promote, caught,
}

-- A predicate of the value that is returned, if one is.
abbrev OkAll : {A : Type 0} → (A → Type 0) → Result A × Store → Type 0
OkAll P (ok a, s) = P a
OkAll P (err e, s) = Unit

-- The summary of this eval.
abbrev Named : String → EvalRunSummary → Type 0
Named id summary = summary.eval_id ≡ id

module _ (c : RunnerConfig) (sv : Services) (def : EvalDefinition) (now : ℕ) where
  counted-Named :
      (summary : EvalRunSummary) (out : Result ℕ × Store)
      → summary.eval_id ≡ def.id
      → OkAll
          (Named def.id)
          (continue_with out (λ raised u. (ok (with_regressions summary raised), u)))
  counted-Named summary (ok raised, u) n = n
  counted-Named summary (err e, u) n = tt

  pass-Named :
      (summary : EvalRunSummary) (s : Store)
      → summary.eval_id ≡ def.id
      → OkAll (Named def.id) (run_regression_pass c sv def now summary s)
  unfolding run_regression_pass
  pass-Named summary s n = elim (Result-cases sv.variant_stats) [
    | inr (e, q) ↦ rw q tt
    | inl (stats, q) ↦ rw q (
        counted-Named summary
          (raise_all c sv def (recent_keys def.id (now - c.regression_window_ms) s)
            (detect_regressions stats c.thresholds) 0 s)
          n)
  ]

  scan-Named :
      (built : BuiltEvaluator) (rows : List SpanRow) (s : Store)
      → OkAll (Named def.id) (scan c sv def now built rows s)
  unfolding scan
  scan-Named built rows s =
      elim (score_sampled-Adds sv def built (record (no_summary def) { scanned = length rows }) rows
        s) [
          | inl (e, q) ↦ rw q tt
          | inr (existing, a, inl (e, q)) ↦ rw q tt
          | inr (existing, a, inr (events, new, done, named, b, q, spans)) ↦
              elim (Option-cases sv.save_error) [
                | inr (m, w) ↦ rw (q, w) tt
                | inl w ↦
                    rw (q, w)
                      (pass-Named done
                        (record s {
                          results = s.results ++ new;
                          watermarks = Dict.set def.id (max_start sv.host rows) s.watermarks;
                        })
                        named)
              ]
        ]

  scan_any-Named :
      (built : BuiltEvaluator) (rows : List SpanRow) (s : Store)
      → OkAll (Named def.id) (scan_any c sv def now built rows s)
  scan_any-Named built [] s = pass-Named (no_summary def) s refl
  scan_any-Named built (r ∷ rs) s = scan-Named built (r ∷ rs) s

  run_eval-Named : (s : Store) → OkAll (Named def.id) (run_eval c sv def now s)
  unfolding run_eval
  run_eval-Named s = elim (Result-cases (build_evaluator sv def)) [
    | inr (e, q) ↦ rw q tt
    | inl (built, q) ↦
        elim (Result-cases
          (sv.candidate_spans (since_of c now (Dict.get def.id s.watermarks)) now)) [
            | inr (e, r) ↦ rw (q, r) tt
            | inl (rows, r) ↦ rw (q, r) (scan_any-Named built rows s)
          ]
  ]

  caught-Named :
      (out : Result EvalRunSummary × Store)
      → OkAll (Named def.id) out
      → (caught def out.0).eval_id ≡ def.id
  caught-Named (ok summary, s) n = n
  caught-Named (err message, s) n = refl

abbrev pub summary_id : EvalRunSummary → String
summary_id summary = summary.eval_id

abbrev pub definition_id : EvalDefinition → String
definition_id def = def.id

run_all-in_order :
    (c : RunnerConfig) (services : EvalDefinition → Services) (now : EvalDefinition → ℕ)
    (defs : List EvalDefinition) (s : Store)
    → map summary_id (run_all c services now defs s).0 ≡ map definition_id defs
unfolding run_all
run_all-in_order c services now [] s = refl
run_all-in_order c services now (def ∷ defs) s =
    let out = run_eval c (services def) def (now def) s in
    ground (
      arith,
      caught-Named c (services def) def (now def) out
          (run_eval-Named c (services def) def (now def) s),
      run_all-in_order c services now defs out.1,
    )

-- The ids of the summaries, or the error.
abbrev pub summary_ids : Result (List EvalRunSummary) → Result (List String)
summary_ids (err message) = err message
summary_ids (ok summaries) = ok (map summary_id summaries)

abbrev pub definition_ids : Result (List EvalDefinition) → Result (List String)
definition_ids (err message) = err message
definition_ids (ok defs) = ok (map definition_id defs)

-- Where the enabled evals are selected, a run returns one summary for each, in their order, whatever
-- else the services answer and wherever the promotion or one of the evals throws. Where that select
-- throws, the run throws its error, after the promotion and before any eval.
pub run_once-in_order :
    (c : RunnerConfig) (services : EvalDefinition → Services) (parse : String → Option Json)
    (insert_error : Option String) (events : Result (List SdkEvaluationEventRow))
    (now : EvalDefinition → ℕ) (enabled : Result (List EvalDefinition)) (s : Store)
    → let (result, last) = run_once c services parse insert_error events now enabled s in
      (summary_ids result ≡ definition_ids enabled)
      × ((message : String) → enabled ≡ err message → last ≡ promote parse insert_error events s)
unfolding run_once
run_once-in_order c services parse insert_error events now (err message) s = (refl, λ m e. refl)
run_once-in_order c services parse insert_error events now (ok defs) s = (
  ap ok (run_all-in_order c services now defs (promote parse insert_error events s)),
  λ m e. absurd (cc),
)

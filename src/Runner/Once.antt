-- ===== src/Runner/Once.antt =====
-- apps/eval-runner/src/runner.ts: the regression pass, the whole of runEval, and runOnce.
use trace_bloom.Base.{
  ℕ, ◌+◌, ◌-◌, max, String, Bool, ◌&&◌, Option, none, some, List, [], ◌∷◌, ◌++◌, map, keep, elem,
  length, if◌then◌else◌, string_eq, ◌==◌, ltb,
}
use trace_bloom.Dict
use trace_bloom.Text.{◌+++◌}
use trace_bloom.Regression.{Regression, RegressionMetric, mean_score, pass_rate, detect_regressions}
use trace_bloom.Json.{Json}
use trace_bloom.Results.Promote.{SdkEvaluationEventRow, promoted_rows}
use trace_bloom.Runner.{Host, SpanRow, EvalDefinition}
use trace_bloom.Runner.Run.{
  Result, ok, err, Raised, Store, M, ◌>>=◌, ◌>>◌, pure, call, write, RunnerConfig, Services,
  BuiltEvaluator, EvalRunSummary, no_summary, build_evaluator, score_sampled,
}

abbrev pub metric_text : RegressionMetric → String
metric_text mean_score = "mean_score"
metric_text pass_rate = "pass_rate"

-- `${variant}:${metric}`.
abbrev pub key_of : Regression → String
key_of r = r.variant +++ ":" +++ metric_text r.metric

abbrev pub raised_key : Raised → String
raised_key r = key_of r.regression

-- The select of eval_regressions: this eval's, since the window started.
abbrev pub is_recent : String → ℕ → Raised → Bool
is_recent eval_id window_start r = r.eval_id == eval_id && ltb window_start r.detected_at

abbrev pub recent_keys : String → ℕ → Store → List String
recent_keys eval_id window_start s =
    map raised_key (keep (is_recent eval_id window_start) s.regressions)

-- A row that is inserted, at a time that the database sets, and marked as notified where a webhook is set and accepts it.
abbrev pub raised_row : RunnerConfig → Services → EvalDefinition → Regression → Raised
raised_row c sv def r = record {
  eval_id = def.id;
  regression = r;
  detected_at = sv.detected_at r;
  notified = c.has_webhook && sv.webhook_accepts r;
}

abbrev pub insert_raised : Raised → Store → Store
insert_raised row s = record s { regressions = s.regressions ++ row ∷ [] }

-- The body of the loop over the regressions.
unfoldable pub raise_one :
    RunnerConfig → Services → EvalDefinition → List String → Regression → ℕ → M ℕ
raise_one c sv def seen r raised =
    if elem (key_of r) seen
    then pure raised
    else write sv.raise_error (insert_raised (raised_row c sv def r)) >>= λ _. pure (raised + 1)

-- The loop: how many were raised.
unfoldable pub raise_all :
    RunnerConfig → Services → EvalDefinition → List String → List Regression → ℕ → M ℕ
unfolding raise_one
raise_all c sv def seen [] raised = pure raised
raise_all c sv def seen (r ∷ rs) raised =
    raise_one c sv def seen r raised >>= λ n. raise_all c sv def seen rs n

abbrev pub with_regressions : EvalRunSummary → ℕ → EvalRunSummary
with_regressions summary raised = record summary { regressions = summary.regressions + raised }

-- runRegressionPass.
unfoldable pub run_regression_pass :
    RunnerConfig → Services → EvalDefinition → ℕ → EvalRunSummary → M EvalRunSummary
unfolding raise_all
run_regression_pass c sv def now summary = do
  stats ← call sv.variant_stats
  raised ← λ s.
      raise_all c sv def (recent_keys def.id (now - c.regression_window_ms) s)
        (detect_regressions stats c.thresholds) 0 s
  pure (with_regressions summary raised)

-- The reduce of `maxStart`.
unfoldable pub max_start : Host → List SpanRow → ℕ
max_start h [] = 0
max_start h (r ∷ rs) = max (h.start_ms r.span_start_time) (max_start h rs)

-- From the watermark less the overlap, or from the lookback. The times before 1970 are one here.
abbrev pub since_of : RunnerConfig → ℕ → Option ℕ → ℕ
since_of c now none = now - c.lookback_ms
since_of c now (some watermark) = watermark - c.watermark_overlap_ms

abbrev pub watermark_of : EvalDefinition → M (Option ℕ)
watermark_of def s = (ok (Dict.get def.id s.watermarks), s)

-- What follows for rows that are not empty.
unfoldable pub scan :
    RunnerConfig → Services → EvalDefinition → ℕ → BuiltEvaluator → List SpanRow → M EvalRunSummary
unfolding score_sampled max_start run_regression_pass
scan c sv def now built rows = do
  summary ← score_sampled sv def built (record (no_summary def) { scanned = length rows }) rows
  write sv.save_error
      (λ s. record s { watermarks = Dict.set def.id (max_start sv.host rows) s.watermarks })
  run_regression_pass c sv def now summary

abbrev pub scan_any :
    RunnerConfig → Services → EvalDefinition → ℕ → BuiltEvaluator → List SpanRow → M EvalRunSummary
scan_any c sv def now built [] = run_regression_pass c sv def now (no_summary def)
scan_any c sv def now built (r ∷ rs) = scan c sv def now built (r ∷ rs)

-- runEval.
unfoldable pub run_eval : RunnerConfig → Services → EvalDefinition → ℕ → M EvalRunSummary
unfolding build_evaluator scan run_regression_pass
run_eval c sv def now = do
  built ← call (build_evaluator sv def)
  watermark ← watermark_of def
  rows ← call (sv.candidate_spans (since_of c now watermark) now)
  scan_any c sv def now built rows

-- The `try` and `catch` of runOnce: a run that throws leaves what it wrote, and its message.
abbrev pub caught : EvalDefinition → Result EvalRunSummary → EvalRunSummary
caught def (ok summary) = summary
caught def (err message) = record (no_summary def) { skipped = some message }

-- The loop of runOnce over the enabled definitions, each of which has its own services and time.
unfoldable pub run_all :
    RunnerConfig
    → (EvalDefinition → Services)
    → (EvalDefinition → ℕ)
    → List EvalDefinition
    → Store
    → List EvalRunSummary × Store
unfolding run_eval
run_all c services now [] s = ([], s)
run_all c services now (def ∷ defs) s =
    let (result, next) = run_eval c (services def) def (now def) s in
    let (summaries, last) = run_all c services now defs next in
    (caught def result ∷ summaries, last)

-- The promotion that runOnce starts with, whose error it only logs.
unfoldable pub promote :
    (String → Option Json) → Option String → Result (List SdkEvaluationEventRow) → Store → Store
promote parse insert_error (err message) s = s
promote parse (some message) (ok events) s = s
promote parse none (ok events) s = record s { results = s.results ++ promoted_rows parse events }

-- The rest of runOnce, once the enabled definitions are selected or the select has thrown.
abbrev pub run_selected :
    RunnerConfig
    → (EvalDefinition → Services)
    → (EvalDefinition → ℕ)
    → Result (List EvalDefinition)
    → M (List EvalRunSummary)
run_selected c services now (err message) s = (err message, s)
run_selected c services now (ok defs) s =
    let (summaries, last) = run_all c services now defs s in (ok summaries, last)

-- runOnce. No `try` surrounds the select of the enabled definitions.
unfoldable pub run_once :
    RunnerConfig
    → (EvalDefinition → Services)
    → (String → Option Json)
    → Option String
    → Result (List SdkEvaluationEventRow)
    → (EvalDefinition → ℕ)
    → Result (List EvalDefinition)
    → M (List EvalRunSummary)
unfolding run_all promote
run_once c services parse insert_error events now enabled s =
    run_selected c services now enabled (promote parse insert_error events s)

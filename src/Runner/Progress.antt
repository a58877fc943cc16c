-- ===== src/Runner/Progress.antt =====
-- What a run has stored when it moves the watermark, and what it leaves when it throws.
use trace_bloom.Base.{
  ℕ, ◌≡◌, refl, ◌⊎◌, inl, inr, String, List, [], ◌∷◌, ◌++◌, map, keep, length, string_eq,
  Option-cases,
}
use trace_bloom.Dict.{Dict}
use trace_bloom.Dict
use trace_bloom.Results.{EvalResultRow}
use trace_bloom.Runner.{SpanRow, SpanEventRow, EvalDefinition}
use trace_bloom.Runner.Run.{
  ok, Store, RunnerConfig, Services, BuiltEvaluator, no_summary, ask, id_of, is_sampled,
  build_evaluator,
}
use trace_bloom.Runner.Once.{max_start, since_of, scan, run_eval}
use trace_bloom.Runner.Adds.{
  Result-cases, candidates, candidate_span, row_span, fresh_of, score_sampled-Adds,
}
use trace_bloom.Runner.Keeps.{run_regression_pass-Keeps}

module _ (c : RunnerConfig) (sv : Services) (def : EvalDefinition) (now : ℕ) where
  -- The watermark is the latest start of the spans found, and every fresh span with content has a
  -- new row.
  abbrev pub Moved : BuiltEvaluator → List SpanRow → Store → Store → Type 0
  Moved built rows s after =
      (existing : List String) × (events : List SpanEventRow) × (new : List EvalResultRow) × (ask
          sv.existing_span_ids (map id_of (keep (is_sampled sv def) rows))
        ≡ ok existing)
      × (ask sv.span_events (map id_of (fresh_of sv def built existing rows)) ≡ ok events)
      × (after.watermarks ≡ Dict.set def.id (max_start sv.host rows) s.watermarks)
      × (after.results ≡ s.results ++ new)
      × (map row_span new
          ≡ map candidate_span
              (candidates sv def built (fresh_of sv def built existing rows) events))

  abbrev Moves : BuiltEvaluator → List SpanRow → Store → Store → Type 0
  Moves built rows s after = (after.watermarks ≡ s.watermarks) ⊎ Moved built rows s after

  scan-Moves :
      (built : BuiltEvaluator) (rows : List SpanRow) (s : Store)
      → Moves built rows s (scan c sv def now built rows s).1
  unfolding scan
  scan-Moves built rows s =
      elim (score_sampled-Adds sv def built (record (no_summary def) { scanned = length rows }) rows
        s) [
          | inl (e, q) ↦ inl (rw q refl)
          | inr (existing, a, inl (e, q)) ↦ inl (rw q refl)
          | inr (existing, a, inr (events, new, done, named, b, q, spans)) ↦
              elim (Option-cases sv.save_error) [
                | inr (m, w) ↦ inl (rw (q, w) refl)
                | inl w ↦
                    let moved = record s {
                      results = s.results ++ new;
                      watermarks = Dict.set def.id (max_start sv.host rows) s.watermarks;
                    } in
                    let k = run_regression_pass-Keeps c sv def now done moved in
                    inr (existing, events, new, a, b, rw (q, w) k.0, rw (q, w) k.1, spans)
              ]
        ]

  -- Whatever the services answer, and wherever the run throws: the watermarks are as they were, or
  -- this eval's is the latest start of the spans that were found, and then every one of them that is
  -- sampled, was not scored before, and has content, has a row among the new results.
  pub run_eval-Moved :
      (s : Store)
      → let after = (run_eval c sv def now s).1 in
        (after.watermarks ≡ s.watermarks)
        ⊎ ((built : BuiltEvaluator) × (rows : List SpanRow) × (build_evaluator sv def ≡ ok built)
            × (sv.candidate_spans (since_of c now (Dict.get def.id s.watermarks)) now ≡ ok rows)
            × Moved built rows s after)
  unfolding run_eval
  run_eval-Moved s = elim (Result-cases (build_evaluator sv def)) [
    | inr (e, q) ↦ inl (rw q refl)
    | inl (built, q) ↦
        elim (Result-cases
          (sv.candidate_spans (since_of c now (Dict.get def.id s.watermarks)) now)) [
            | inr (e, r) ↦ inl (rw (q, r) refl)
            | inl ([], r) ↦
                inl (rw (q, r) (run_regression_pass-Keeps c sv def now (no_summary def) s).0)
            | inl (row ∷ rows, r) ↦ elim (scan-Moves built (row ∷ rows) s) [
              | inl same ↦ inl (rw (q, r) same)
              | inr moved ↦ inr (built, row ∷ rows, q, r, rw (q, r) moved)
            ]
          ]
  ]

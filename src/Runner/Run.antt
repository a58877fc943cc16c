-- ===== src/Runner/Run.antt =====
-- apps/eval-runner/src/runner.ts: runEval, as a computation that changes the database and may throw.
-- What the services answer is the record Services, and the time that the database sets on a row that
-- it inserts is one of their answers; a writing call of a database fails or succeeds.
use trace_bloom.Base.{
  ℕ, ◌-◌, String, Bool, not, Option, none, some, List, [], ◌∷◌, ◌++◌, map, keep, elem, length,
  if◌then◌else◌, string_eq, or_else, ◌==◌,
}
use trace_bloom.Dict.{Dict}
use trace_bloom.Text.{◌+++◌}
use trace_bloom.Regression.{Regression, RegressionThresholds, VariantStats}
use trace_bloom.Results.{EvalInput, CachedResult, EvalResultRow}
use trace_bloom.Runner.{Host, SpanRow, SpanEventRow, EvalDefinition, Evaluation}
use trace_bloom.Runner.Spans.{sample_decision}
use trace_bloom.Runner.Scoring.{
  group_events, candidates_of, unique_hashes, cache_of, to_score, rep_from, score_all, result_rows,
}

pub data Result {ℓ} (A : Type ℓ) : Type ℓ where
  ok : A → Result A
  err : String → Result A

-- A row of eval_regressions.
pub record Raised : Type 0 where
  pub eval_id : String
  pub regression : Regression
  pub detected_at : ℕ
  pub notified : Bool

-- The tables that a run writes: eval_results, the watermarks of eval_state, and eval_regressions.
pub record Store : Type 0 where
  pub results : List EvalResultRow
  pub watermarks : Dict String ℕ
  pub regressions : List Raised

abbrev pub M : Type 0 → Type 0
M A = Store → Result A × Store

abbrev pub continue_with : {A B : Type 0} → Result A × Store → (A → M B) → Result B × Store
continue_with (ok a, s) f = f a s
continue_with (err e, s) f = (err e, s)

infixl 5 ◌>>=◌ ◌>>◌
abbrev pub ◌>>=◌ : {A B : Type 0} → M A → (A → M B) → M B
◌>>=◌ m f s = continue_with (m s) f

abbrev pub ◌>>◌ : {A B : Type 0} → M A → M B → M B
m >> k = m >>= λ _. k

abbrev pub pure : {A : Type 0} → A → M A
pure a s = (ok a, s)

-- A call that answers, or throws.
abbrev pub call : {A : Type 0} → Result A → M A
call r s = (r, s)

-- A call that writes, unless it throws.
abbrev pub write : Option String → (Store → Store) → M (Unit {0})
write none f s = (ok tt, f s)
write (some e) f s = (err e, s)

-- The parts of RunnerConfig that a run reads.
pub record RunnerConfig : Type 0 where
  pub lookback_ms : ℕ
  pub watermark_overlap_ms : ℕ
  pub regression_window_ms : ℕ
  pub thresholds : RegressionThresholds
  pub has_webhook : Bool

-- A validated configuration, by its text and the metric name that a judge's may set.
pub record EvalConfig : Type 0 where
  pub metric_name : Option String
  pub text : String

pub record Services : Type 0 where
  pub host : Host
  pub validate_config : EvalDefinition → Result EvalConfig
  pub deterministic : EvalConfig → EvalInput → Evaluation
  pub judge : Option (EvalConfig → EvalInput → Evaluation)
  pub candidate_spans : ℕ → ℕ → Result (List SpanRow)
  pub existing_span_ids : List String → Result (List String)
  pub span_events : List String → Result (List SpanEventRow)
  pub cached_results : List String → Result (List (String × CachedResult))
  pub completed : List String → List String
  pub insert_error : Option String
  pub save_error : Option String
  pub variant_stats : Result (List VariantStats)
  pub raise_error : Option String
  pub webhook_accepts : Regression → Bool
  pub detected_at : Regression → ℕ

pub record BuiltEvaluator : Type 0 where
  pub evaluate : EvalInput → Evaluation
  pub evaluation_name : String

-- EvalRunSummary.
pub record EvalRunSummary : Type 0 where
  pub eval_id : String
  pub eval_name : String
  pub scanned : ℕ
  pub scored : ℕ
  pub cached : ℕ
  pub skipped_existing : ℕ
  pub errors : ℕ
  pub regressions : ℕ
  pub skipped : Option String

abbrev pub no_summary : EvalDefinition → EvalRunSummary
no_summary def = record {
  eval_id = def.id;
  eval_name = def.name;
  scanned = 0;
  scored = 0;
  cached = 0;
  skipped_existing = 0;
  errors = 0;
  regressions = 0;
  skipped = none;
}

-- buildEvaluator, of apps/eval-runner/src/evaluators.ts, once the configuration is valid.
unfoldable pub build_judge :
    Option (EvalConfig → EvalInput → Evaluation)
    → EvalDefinition
    → EvalConfig
    → Result BuiltEvaluator
build_judge none def config = err (
    "eval \"" +++ def.name
    +++ "\" is llm_judge but no judge client is configured (set OPENAI_API_KEY)")
build_judge (some judge) def config =
    ok (record { evaluate = judge config; evaluation_name = or_else config.metric_name def.name })

unfoldable pub build_evaluator : Services → EvalDefinition → Result BuiltEvaluator
unfolding build_judge
build_evaluator sv def = elim (sv.validate_config def) [
  | err e ↦ err e
  | ok config ↦
      if def.kind == "deterministic"
      then ok (record { evaluate = sv.deterministic config; evaluation_name = def.name })
      else build_judge sv.judge def config
]

abbrev pub id_of : SpanRow → String
id_of r = r.span_id

-- The lookups, which ask nothing for an empty list.
abbrev pub ask : {A : Type 0} → (List String → Result (List A)) → List String → Result (List A)
ask query [] = ok []
ask query (id ∷ ids) = query (id ∷ ids)

abbrev pub is_sampled : Services → EvalDefinition → SpanRow → Bool
is_sampled sv def r = sample_decision sv.host r.span_id def.sampling_rate

abbrev pub is_fresh : List String → SpanRow → Bool
is_fresh existing r = not (elem r.span_id existing)

-- insertEvalResults, which writes nothing for an empty list.
abbrev pub insert_eval_results : Services → List EvalResultRow → M (Unit {0})
insert_eval_results sv [] = pure tt
insert_eval_results sv (row ∷ rows) =
    write sv.insert_error (λ s. record s { results = s.results ++ (row ∷ rows) })

-- The block for `fresh.length > 0`.
unfoldable pub score_fresh :
    Services → EvalDefinition → BuiltEvaluator → EvalRunSummary → List SpanRow → M EvalRunSummary
unfolding group_events candidates_of unique_hashes cache_of to_score rep_from score_all result_rows
score_fresh sv def built summary fresh = do
  rows ← call (ask sv.span_events (map id_of fresh))
  let candidates = candidates_of sv.host def built.evaluation_name (group_events [] rows) fresh
  hits ← call (ask sv.cached_results (unique_hashes candidates))
  let cache = cache_of [] hits
  let ended = sv.completed (to_score cache candidates)
  let outcomes = score_all built.evaluate (rep_from [] candidates) ended []
  let scored = result_rows cache outcomes candidates
  insert_eval_results sv scored.rows
  pure (record summary {
    scored = length scored.rows;
    cached = scored.cached;
    errors = scored.errors;
  })

-- From the sampling to the inserted rows.
unfoldable pub score_sampled :
    Services → EvalDefinition → BuiltEvaluator → EvalRunSummary → List SpanRow → M EvalRunSummary
unfolding score_fresh sample_decision
score_sampled sv def built summary rows = do
  let sampled = keep (is_sampled sv def) rows
  existing ← call (ask sv.existing_span_ids (map id_of sampled))
  let fresh = keep (is_fresh existing) sampled
  let counted = record summary { skipped_existing = length sampled - length fresh }
  elim fresh [ [] ↦ pure counted | r ∷ rs ↦ score_fresh sv def built counted (r ∷ rs) ]

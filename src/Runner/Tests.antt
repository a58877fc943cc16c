-- ===== src/Runner/Tests.antt =====
-- Runs and instances.
use trace_bloom.Base.{
  ℕ, ◌≡◌, refl, ◌⊎◌, inl, inr, Bool-cases, ◌==◌, String, true, false, ◌&&◌, not, none, some, List,
  [], ◌∷◌, map, keep, elem, length, arith, string_eq, Distinct,
}
use mathlib.Core.List.{Memᴰ}
use trace_bloom.Dict.{Dict}
use trace_bloom.Dict
use trace_bloom.Text.{is_empty}
use trace_bloom.Json.{object}
use trace_bloom.Regression.{VariantStats, detect_regressions}
use trace_bloom.Results.{EvaluatedSpan, EvalInput, EvalOutcome, CachedResult, build_result_row}
use trace_bloom.Results.Events.{content_hash}
use trace_bloom.Runner.{
  Host, SpanRow, SpanEventRow, EvalDefinition, Candidate, Evaluation, returned,
}
use trace_bloom.Runner.Spans.{sample_decision, reconstruct_io}
use trace_bloom.Runner.Scoring.{candidates_of, hash_of, to_score, rep_from, score_all, result_rows}
use trace_bloom.Runner.Run.{
  Result, ok, err, Store, RunnerConfig, Services, BuiltEvaluator, build_evaluator, is_fresh,
  no_summary,
}
use trace_bloom.Runner.Once.{run_eval, run_once, promote, run_regression_pass, since_of}
use trace_bloom.Runner.Unique.{to_score-Distinct}
use trace_bloom.Runner.Cached.{own_row, marked_row, IsStored, result_rows-direct}
use trace_bloom.Runner.Alerts.{run_regression_pass-again}
use trace_bloom.Runner.Progress.{Moved, run_eval-Moved}
use trace_bloom.Runner.Again.{candidates_of-again}
use trace_bloom.Runner.Summaries.{summary_ids, run_once-in_order}

-- A host whose hash is the text itself would need strings; this one tells two contents apart.
abbrev first_code : List ℕ → String
first_code [] = "none"
first_code (c ∷ cs) = "some"

abbrev host : Host
host = record {
  sha256 = first_code;
  parse = λ body. none;
  stringify = λ v. "";
  sample_prefix = λ id. 0x80000000;
  start_ms = λ t. 7;
}

abbrev def_one : EvalDefinition
def_one = record {
  id = "e";
  name = "short";
  version = 1;
  kind = "deterministic";
  sampling_rate = record { negative = false; num = 1; den = 1 };
}

abbrev row_one : SpanRow
row_one = record {
  trace_id = "t";
  span_id = "s1";
  response_id = "";
  request_model = "m";
  operation_name = "chat";
  service_name = "app";
  span_start_time = "now";
  prompt_version = "";
  attributes_json = "{}";
}

abbrev event_one : SpanEventRow
event_one = record { span_id = "s1"; name = "gen_ai.choice"; body = "hello" }

abbrev good : EvalOutcome
good = record {
  score = record { negative = false; num = 1; den = 1 };
  passed = true;
  label = some "pass";
  reason = none;
  metadata = none;
  error_type = none;
}

abbrev best_stats : VariantStats
best_stats = record { variant = "a"; mean = 90; passing = 90; sample_count = 20 }

abbrev worse_stats : VariantStats
worse_stats = record { variant = "b"; mean = 50; passing = 90; sample_count = 20 }

abbrev services : EvalDefinition → Services
services def = record {
  host = host;
  validate_config = λ d. ok (record { metric_name = none; text = "{}" });
  deterministic = λ c i. returned good;
  judge = none;
  candidate_spans = λ since until. ok (row_one ∷ []);
  existing_span_ids = λ ids. ok [];
  span_events = λ ids. ok (event_one ∷ []);
  cached_results = λ hashes. ok [];
  completed = λ hashes. hashes;
  insert_error = none;
  save_error = none;
  variant_stats = ok (best_stats ∷ worse_stats ∷ []);
  raise_error = none;
  webhook_accepts = λ r. true;
  detected_at = λ r. 5001;
}

abbrev config : RunnerConfig
config = record {
  lookback_ms = 1000;
  watermark_overlap_ms = 10;
  regression_window_ms = 100;
  has_webhook = true;
  thresholds = record {
    min_samples = 10;
    mean_score_drop = 10;
    pass_rate_drop = 10;
    baseline_variant = "";
  };
}

abbrev definitions : Result (List EvalDefinition)
definitions = ok (def_one ∷ [])

abbrev empty_store : Store
empty_store = record { results = []; watermarks = []; regressions = [] }

abbrev stats_two : List VariantStats
stats_two = best_stats ∷ worse_stats ∷ []

-- The first run scores the span, moves the watermark, and raises the drop of the variant b.
first_run :
    let out = run_eval config (services def_one) def_one 5000 empty_store in
    (map (λ r. r.span_id) out.1.results ≡ "s1" ∷ [])
    × (out.1.watermarks ≡ ("e", 7) ∷ [])
    × (length out.1.regressions ≡ 1)
unfolding run_eval content_hash Dict.get Dict.set Dict.has is_empty detect_regressions
first_run = (refl, refl, refl)

to_score-twice : to_score [] [] ≡ []
unfolding to_score
to_score-twice = refl

run_eval-Moved_example :
    let after = (run_eval config (services def_one) def_one 5000 empty_store).1 in
    (after.watermarks ≡ [])
    ⊎ ((built : BuiltEvaluator) × (rows : List SpanRow) × (build_evaluator
            (services def_one)
            def_one
          ≡ ok built)
        × ((services def_one).candidate_spans
              (since_of config 5000 (Dict.get "e" empty_store.watermarks))
              5000
            ≡ ok rows)
        × Moved config (services def_one) def_one 5000 built rows empty_store after)
run_eval-Moved_example = run_eval-Moved config (services def_one) def_one 5000 empty_store

run_once-in_order_example :
    let (result, last) =
      run_once config services
        (λ body. none)
        none
        (err "offline")
        (λ def. 5000)
        (ok (def_one ∷ []))
        empty_store in
    (summary_ids result ≡ ok ("e" ∷ []))
    × ((message : String)
        → definitions ≡ err message
        → last ≡ promote (λ body. none) none (err "offline") empty_store)
run_once-in_order_example =
    run_once-in_order config services (λ body. none) none (err "offline") (λ def. 5000)
      (ok (def_one ∷ [])) empty_store

-- A second pass, some time later.
run_regression_pass-again_example :
    let first =
      run_regression_pass config (services def_one) def_one 5000 (no_summary def_one) empty_store in
    run_regression_pass config (services def_one) def_one 5050 (no_summary def_one) first.1
    ≡ (ok (no_summary def_one), first.1)
run_regression_pass-again_example =
    run_regression_pass-again config (services def_one) (services def_one) def_one 5000 5050
      stats_two stats_two (no_summary def_one) (no_summary def_one) empty_store refl refl refl
      (λ k h. h) (λ r. omega arith) (λ k h. h)

abbrev span_one : EvaluatedSpan
span_one = record {
  trace_id = "t";
  span_id = "s1";
  response_id = "";
  request_model = "m";
  operation_name = "chat";
  service_name = "app";
  prompt_version = "";
  span_start_time = "now";
  attributes = object [];
}

abbrev candidate_one : Candidate
candidate_one = record {
  input = record { input = ""; output = "hello"; span = span_one };
  variant = "m";
  hash = "h";
  row_params = record {
    eval_id = "e";
    eval_version = 1;
    evaluator_type = "deterministic";
    evaluation_name = "short";
    span = span_one;
    variant = "m";
    content_hash = "h";
  };
}

abbrev no_results : Dict String CachedResult
no_results = []

abbrev twins : List Candidate
twins = candidate_one ∷ candidate_one ∷ []

to_score-Distinct_example :
    Distinct (to_score [] twins)
    × ((hash : String)
        → elem hash (to_score [] twins)
          ≡ (not (Dict.has hash no_results) && elem hash (map hash_of twins)))
to_score-Distinct_example = to_score-Distinct [] twins

abbrev constant : EvalInput → Evaluation
constant i = returned good

abbrev good_result : CachedResult
good_result = record {
  score_value = good.score;
  score_label = "pass";
  passed = true;
  explanation = "";
}

-- The result of two of three spans is stored; the other one is scored.
abbrev a_cache : Dict String CachedResult
a_cache =
    (
      "h",
      record { score_value = good.score; score_label = "pass"; passed = true; explanation = "" },
    )
    ∷ []

abbrev three : List Candidate
three = candidate_one ∷ record candidate_one { hash = "k" } ∷ candidate_one ∷ []

good_result-IsStored : (c : Candidate) → IsStored good_result (own_row constant c)
unfolding build_result_row
good_result-IsStored c = record {
  score_value = refl;
  score_label = refl;
  passed = refl;
  explanation = refl;
  no_error = refl;
}

IsStored-good :
    (c : Candidate) (hit : CachedResult)
    → Memᴰ c three
    → Dict.get c.hash a_cache ≡ some hit
    → IsStored hit (own_row constant c)
unfolding Dict.get
IsStored-good c hit m e = elim (Bool-cases ("h" == c.hash)) [
  | inr other ↦ absurd (ground arith)
  | inl same ↦ let whole : hit ≡ good_result = ground arith in rw whole (good_result-IsStored c)
]

result_rows-direct_example :
    (result_rows a_cache
      (score_all constant (rep_from [] three) (to_score a_cache three) [])
      three).rows
    ≡ map (λ c. marked_row a_cache c (own_row constant c)) three
result_rows-direct_example =
    result_rows-direct constant a_cache three (to_score a_cache three) (λ hash. refl)
      (λ c d m n e. refl) IsStored-good

candidates_of-again_example :
    candidates_of host def_one "short"
      (("s1", event_one ∷ []) ∷ [])
      (keep (is_fresh ("s1" ∷ [])) (row_one ∷ []))
    ≡ []
unfolding candidates_of content_hash Dict.get is_empty
candidates_of-again_example =
    candidates_of-again host def_one "short" (("s1", event_one ∷ []) ∷ []) [] ("s1" ∷ [])
      (row_one ∷ []) (λ id h. absurd (ground arith)) (λ id h. h)

-- Half of the range is below three quarters of it, and the one event is output.
sample_decision_run :
    sample_decision host "s1" (record { negative = false; num = 3; den = 4 }) ≡ true
unfolding sample_decision
sample_decision_run = refl

reconstruct_io_run : reconstruct_io host (event_one ∷ []) ≡ ("", "hello")
unfolding reconstruct_io
reconstruct_io_run = refl

-- ===== src/Runner/Scoring.antt =====
-- The part of runEval that scores spans (apps/eval-runner/src/runner.ts), with the grouping of the
-- rows it fetches (apps/eval-runner/src/clickhouse.ts).
use trace_bloom.Base.{
  ℕ, ◌+◌, String, Bool, false, ◌&&◌, not, Option, none, some, List, [], ◌∷◌, ◌++◌, map,
  if◌then◌else◌, keep, elem, string_eq, or_else,
}
use trace_bloom.Dict.{Dict}
use trace_bloom.Dict
use trace_bloom.Text.{is_empty}
use trace_bloom.Json.{zero_score, truthy}
use trace_bloom.Results.{
  EvalInput, EvalOutcome, CachedResult, EvalResultRow, build_result_row, build_row_from_cache,
}
use trace_bloom.Results.Events.{content_hash}
use trace_bloom.Results.Promote.{compute_variant}
use trace_bloom.Runner.{
  Host, SpanRow, SpanEventRow, EvalDefinition, Candidate, Evaluation, returned, threw,
}
use trace_bloom.Runner.Spans.{to_evaluated_span, reconstruct_io}

-- fetchSpanEvents: the rows of the query, grouped by span.
abbrev add_row : SpanEventRow → Dict String (List SpanEventRow) → Dict String (List SpanEventRow)
add_row row by_span = elim (Dict.get row.span_id by_span) [
  | none ↦ Dict.set row.span_id (row ∷ []) by_span
  | some rows ↦ Dict.set row.span_id (rows ++ row ∷ []) by_span
]

unfoldable pub group_events :
    Dict String (List SpanEventRow) → List SpanEventRow → Dict String (List SpanEventRow)
group_events by_span [] = by_span
group_events by_span (row ∷ rows) = group_events (add_row row by_span) rows

-- The body of the loop over `fresh`: none where it continues.
unfoldable pub candidate_of :
    Host → EvalDefinition → String → Dict String (List SpanEventRow) → SpanRow → Option Candidate
unfolding to_evaluated_span reconstruct_io content_hash compute_variant
candidate_of h def evaluation_name events row =
    let span = to_evaluated_span h row in
    let io = reconstruct_io h (or_else (Dict.get row.span_id events) []) in
    let hash = content_hash h.sha256 def.version io.0 io.1 in
    let variant = compute_variant span.prompt_version span.request_model in
    if is_empty io.0 && is_empty io.1
    then none
    else some (record {
      input = record { input = io.0; output = io.1; span = span };
      variant = variant;
      hash = hash;
      row_params = record {
        eval_id = def.id;
        eval_version = def.version;
        evaluator_type = def.kind;
        evaluation_name = evaluation_name;
        span = span;
        variant = variant;
        content_hash = hash;
      };
    })

unfoldable pub candidates_of :
    Host → EvalDefinition → String → Dict String (List SpanEventRow) → List SpanRow → List Candidate
unfolding candidate_of
candidates_of h def name events [] = []
candidates_of h def name events (row ∷ rows) =
    let rest = candidates_of h def name events rows in
    elim (candidate_of h def name events row) [ none ↦ rest | some c ↦ c ∷ rest ]

-- `[...new Set(hashes)]`.
unfoldable pub unique_from : List String → List String → List String
unique_from seen [] = seen
unique_from seen (x ∷ xs) = unique_from (if elem x seen then seen else seen ++ x ∷ []) xs

abbrev pub hash_of : Candidate → String
hash_of c = c.hash

unfoldable pub unique_hashes : List Candidate → List String
unfolding unique_from
unique_hashes candidates = unique_from [] (map hash_of candidates)

-- fetchContentCache: the rows of the query, by content hash.
unfoldable pub cache_of :
    Dict String CachedResult → List (String × CachedResult) → Dict String CachedResult
cache_of cache [] = cache
cache_of cache ((hash, cached) ∷ rows) = cache_of (Dict.set hash cached cache) rows

abbrev pub is_missing : Dict String CachedResult → String → Bool
is_missing cache hash = not (Dict.has hash cache)

-- toScore.
unfoldable pub to_score : Dict String CachedResult → List Candidate → List String
unfolding unique_hashes Dict.has
to_score cache candidates = keep (is_missing cache) (unique_hashes candidates)

-- repByHash.
unfoldable pub rep_from : Dict String Candidate → List Candidate → Dict String Candidate
unfolding Dict.has
rep_from reps [] = reps
rep_from reps (c ∷ cs) = rep_from (if Dict.has c.hash reps then reps else Dict.set c.hash c reps) cs

-- The outcome of one evaluation, or what the `catch` makes of an error.
abbrev pub outcome_of : Evaluation → EvalOutcome
outcome_of (returned outcome) = outcome
outcome_of (threw name message) = record {
  score = zero_score;
  passed = false;
  label = none;
  reason = some message;
  metadata = none;
  error_type = some name;
}

-- The worker, for one hash.
unfoldable pub score_hash :
    (EvalInput → Evaluation)
    → Dict String Candidate
    → String
    → Dict String EvalOutcome
    → Dict String EvalOutcome
score_hash evaluate reps hash outcomes = elim (Dict.get hash reps) [
  | none ↦ outcomes
  | some rep ↦ Dict.set hash (outcome_of (evaluate rep.input)) outcomes
]

-- All of them, in the order in which the evaluations end.
unfoldable pub score_all :
    (EvalInput → Evaluation)
    → Dict String Candidate
    → List String
    → Dict String EvalOutcome
    → Dict String EvalOutcome
unfolding score_hash
score_all evaluate reps [] outcomes = outcomes
score_all evaluate reps (hash ∷ ended) outcomes =
    score_all evaluate reps ended (score_hash evaluate reps hash outcomes)

abbrev pub no_outcome : EvalOutcome
no_outcome = record {
  score = zero_score;
  passed = false;
  label = none;
  reason = some "no outcome produced";
  metadata = none;
  error_type = some "_OTHER";
}

-- The rows, with the counts of cached ones and of errors.
pub record Scored : Type 0 where
  pub rows : List EvalResultRow
  pub cached : ℕ
  pub errors : ℕ

abbrev pub row_of : Dict String CachedResult → Dict String EvalOutcome → Candidate → EvalResultRow
row_of cache outcomes c = elim (Dict.get c.hash cache) [
  | some hit ↦ build_row_from_cache c.row_params hit
  | none ↦ build_result_row c.row_params (or_else (Dict.get c.hash outcomes) no_outcome)
]

unfoldable pub result_rows :
    Dict String CachedResult → Dict String EvalOutcome → List Candidate → Scored
unfolding build_result_row build_row_from_cache Dict.has
result_rows cache outcomes [] = record { rows = []; cached = 0; errors = 0 }
result_rows cache outcomes (c ∷ cs) =
    let rest = result_rows cache outcomes cs in
    let outcome = or_else (Dict.get c.hash outcomes) no_outcome in
    let hit = Dict.has c.hash cache in
    record {
      rows = row_of cache outcomes c ∷ rest.rows;
      cached = (if hit then 1 else 0) + rest.cached;
      errors = (if not hit && truthy outcome.error_type then 1 else 0) + rest.errors;
    }

-- ===== src/Results.antt =====
-- apps/eval-runner/src/results.ts: the row that stores an evaluation, with the types of a span and
-- an outcome from packages/eval/src/types.ts and of a row from apps/eval-runner/src/clickhouse.ts.
-- Whether a row passed is a Boolean here, and 1 or 0 in the source.
pub mod Events
pub mod Promote
mod Read
pub mod Agree
pub mod Tests
use trace_bloom.Base.{ℕ, String, Bool, true, false, Option, none, some, if◌then◌else◌, or_else}
use trace_bloom.Json.{Number, zero_score, Json, truthy}

-- EvaluatedSpan.
pub record EvaluatedSpan : Type 0 where
  pub trace_id : String
  pub span_id : String
  pub response_id : String
  pub request_model : String
  pub operation_name : String
  pub service_name : String
  pub prompt_version : String
  pub span_start_time : String
  pub attributes : Json

-- EvalInput.
pub record EvalInput : Type 0 where
  pub input : String
  pub output : String
  pub span : EvaluatedSpan

-- EvalOutcome, with the metadata by its JSON text.
pub record EvalOutcome : Type 0 where
  pub score : Number
  pub passed : Bool
  pub label : Option String
  pub reason : Option String
  pub metadata : Option String
  pub error_type : Option String

pub record CachedResult : Type 0 where
  pub score_value : Number
  pub score_label : String
  pub passed : Bool
  pub explanation : String

pub record RowParams : Type 0 where
  pub eval_id : String
  pub eval_version : ℕ
  pub evaluator_type : String
  pub evaluation_name : String
  pub span : EvaluatedSpan
  pub variant : String
  pub content_hash : String

pub record EvalResultRow : Type 0 where
  pub eval_id : String
  pub eval_version : ℕ
  pub trace_id : String
  pub span_id : String
  pub response_id : String
  pub evaluation_name : String
  pub score_value : Number
  pub score_label : String
  pub passed : Bool
  pub explanation : String
  pub error_type : String
  pub evaluator_type : String
  pub request_model : String
  pub operation_name : String
  pub service_name : String
  pub prompt_version : String
  pub variant : String
  pub content_hash : String
  pub span_start_time : String
  pub metadata_json : String

-- buildResultRow.
unfoldable pub build_result_row : RowParams → EvalOutcome → EvalResultRow
build_result_row params outcome =
    let span = params.span in
    record {
      eval_id = params.eval_id;
      eval_version = params.eval_version;
      trace_id = span.trace_id;
      span_id = span.span_id;
      response_id = span.response_id;
      evaluation_name = params.evaluation_name;
      score_value = if truthy outcome.error_type then zero_score else outcome.score;
      score_label = or_else outcome.label "";
      passed = outcome.passed;
      explanation = or_else outcome.reason "";
      error_type = or_else outcome.error_type "";
      evaluator_type = params.evaluator_type;
      request_model = span.request_model;
      operation_name = span.operation_name;
      service_name = span.service_name;
      prompt_version = span.prompt_version;
      variant = params.variant;
      content_hash = params.content_hash;
      span_start_time = span.span_start_time;
      metadata_json = or_else outcome.metadata "{}";
    }

-- buildRowFromCache.
unfoldable pub build_row_from_cache : RowParams → CachedResult → EvalResultRow
build_row_from_cache params cached =
    let span = params.span in
    record {
      eval_id = params.eval_id;
      eval_version = params.eval_version;
      trace_id = span.trace_id;
      span_id = span.span_id;
      response_id = span.response_id;
      evaluation_name = params.evaluation_name;
      score_value = cached.score_value;
      score_label = cached.score_label;
      passed = cached.passed;
      explanation = cached.explanation;
      error_type = "";
      evaluator_type = params.evaluator_type;
      request_model = span.request_model;
      operation_name = span.operation_name;
      service_name = span.service_name;
      prompt_version = span.prompt_version;
      variant = params.variant;
      content_hash = params.content_hash;
      span_start_time = span.span_start_time;
      metadata_json = "{\"cached\":true}";
    }

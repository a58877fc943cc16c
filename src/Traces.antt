-- ===== src/Traces.antt =====
-- apps/dashboard/lib/traces.ts: the rows of one trace, and the whole-trace aggregates of the page.
-- Amounts of money and scores are counts of a fixed smallest unit. Times in nanoseconds, which the
-- source keeps as decimal texts or BigInt, are the numbers that these stand for.
pub mod Double
pub mod Detail
pub mod Opened
use trace_bloom.Base.{ℕ, ◌+◌, String, Bool, List, [], ◌∷◌, Option, nat_beq}

-- TraceSpan.
pub record TraceSpan : Type 0 where
  pub span_id : String
  pub parent_span_id : String
  pub name : String
  pub kind : String
  pub status_code : String
  pub status_message : String
  pub service_name : String
  pub operation_name : String
  pub provider : String
  pub request_model : String
  pub response_model : String
  pub input_tokens : ℕ
  pub output_tokens : ℕ
  pub total_tokens : ℕ
  pub cost_usd : ℕ
  pub start_offset_ns : ℕ
  pub duration_ns : ℕ
  pub tool_name : String
  pub prompt_version : String
  pub retry_attempt : ℕ
  pub ingested_ms : ℕ

-- TraceSummary. `start_time` is in milliseconds since the epoch.
pub record TraceSummary : Type 0 where
  pub trace_id : String
  pub start_time : ℕ
  pub duration_ns : ℕ
  pub span_count : ℕ
  pub error_count : ℕ
  pub input_tokens : ℕ
  pub output_tokens : ℕ
  pub total_tokens : ℕ
  pub cost_usd : ℕ
  pub service_names : List String
  pub models : List String

-- SpanEvalResult.
pub record SpanEvalResult : Type 0 where
  pub span_id : String
  pub eval_id : String
  pub evaluation_name : String
  pub eval_version : ℕ
  pub score_value : ℕ
  pub score_label : String
  pub passed : Bool
  pub explanation : String
  pub error_type : String
  pub evaluator_type : String
  pub evaluated_ms : Option ℕ

-- LiveCursor of lib/live.ts, which this file and that one share.
pub record LiveCursor : Type 0 where
  pub span_ms : ℕ
  pub eval_ms : ℕ

-- RawSpanRow.
pub record RawSpanRow : Type 0 where
  pub span_id : String
  pub parent_span_id : String
  pub name : String
  pub kind : String
  pub status_code : String
  pub status_message : String
  pub service_name : String
  pub operation_name : String
  pub provider : String
  pub request_model : String
  pub response_model : String
  pub input_tokens : ℕ
  pub output_tokens : ℕ
  pub total_tokens : ℕ
  pub cost_usd : ℕ
  pub start_ns : ℕ
  pub duration_ns : ℕ
  pub tool_name : String
  pub prompt_version : String
  pub retry_attempt : ℕ
  pub ingested_ms : ℕ

-- RawEvalRow.
pub record RawEvalRow : Type 0 where
  pub span_id : String
  pub eval_id : String
  pub evaluation_name : String
  pub eval_version : ℕ
  pub score_value : ℕ
  pub score_label : String
  pub passed : ℕ
  pub explanation : String
  pub error_type : String
  pub evaluator_type : String
  pub evaluated_ms : ℕ

-- mapEvalRow.
unfoldable pub map_eval_row : RawEvalRow → SpanEvalResult
map_eval_row r = record {
  span_id = r.span_id;
  eval_id = r.eval_id;
  evaluation_name = r.evaluation_name;
  eval_version = r.eval_version;
  score_value = r.score_value;
  score_label = r.score_label;
  passed = nat_beq r.passed 1;
  explanation = r.explanation;
  error_type = r.error_type;
  evaluator_type = r.evaluator_type;
  evaluated_ms = Option.some r.evaluated_ms;
}

-- ===== src/Runner.antt =====
-- apps/eval-runner/src: the worker that evaluates stored spans. What the source takes from Node and
-- from other services is the record Host: SHA-256 of a text by its code points, JSON, and the value
-- of a time that ClickHouse prints.
pub mod Spans
pub mod Scoring
pub mod Workers
pub mod Run
pub mod Once
pub mod Alerts
mod Adds
mod Keeps
pub mod Progress
pub mod Again
pub mod Summaries
pub mod Sample
pub mod Texts
pub mod Hashed
pub mod Unique
pub mod Cached
pub mod Tests
use trace_bloom.Base.{ℕ, String, Option, List}
use trace_bloom.Json.{Number, Value, Json}
use trace_bloom.Results.{EvalInput, EvalOutcome, RowParams}

pub record Host : Type 0 where
  pub sha256 : List ℕ → String
  pub parse : String → Option Json
  pub stringify : Value → String
  -- `Number.parseInt(sha256(id).slice(0, 8), 16)`.
  pub sample_prefix : String → ℕ
  -- parseChDateTime.
  pub start_ms : String → ℕ

-- SpanRow and SpanEventRow.
pub record SpanRow : Type 0 where
  pub trace_id : String
  pub span_id : String
  pub response_id : String
  pub request_model : String
  pub operation_name : String
  pub service_name : String
  pub span_start_time : String
  pub prompt_version : String
  pub attributes_json : String

pub record SpanEventRow : Type 0 where
  pub span_id : String
  pub name : String
  pub body : String

-- The fields of EvalDefinition that a run reads, of packages/db; the configuration is in `evaluate`.
pub record EvalDefinition : Type 0 where
  pub id : String
  pub name : String
  pub version : ℕ
  pub kind : String
  pub sampling_rate : Number

pub record Candidate : Type 0 where
  pub input : EvalInput
  pub variant : String
  pub hash : String
  pub row_params : RowParams

-- What `await evaluate` does: it returns, or it throws an error with a name and a message.
pub data Evaluation : Type 0 where
  returned : EvalOutcome → Evaluation
  threw : String → String → Evaluation

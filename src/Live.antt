-- ===== src/Live.antt =====
-- apps/dashboard/lib/live.ts: the live state of one trace, and the merge of deltas into it.
pub mod Cursor
pub mod Merge
pub mod View
pub mod Snapshot
mod Tests
use Prim.Native.String
use trace_bloom.Base.{
  ℕ, max, String, Bool, true, false, ◌&&◌, ◌||◌, not, List, [], ◌∷◌, Option, none, some, ltb,
  nat_beq, if◌then◌else◌, string_eq,
}
use trace_bloom.Dict
use trace_bloom.Dict.{Dict}
use trace_bloom.Traces.{TraceSpan, SpanEvalResult, LiveCursor}

-- LiveSpan: a TraceSpan with its absolute start in place of the offset.
pub record LiveSpan : Type 0 where
  pub span_id : String
  pub parent_span_id : String
  pub name : String
  pub kind : String
  pub status_code : String
  pub status_message : String
  pub service_name : String
  pub operation_name : String
  pub provider : String
  pub request_model : String
  pub response_model : String
  pub input_tokens : ℕ
  pub output_tokens : ℕ
  pub total_tokens : ℕ
  pub cost_usd : ℕ
  pub start_ns : ℕ
  pub duration_ns : ℕ
  pub tool_name : String
  pub prompt_version : String
  pub retry_attempt : ℕ
  pub ingested_ms : ℕ

-- LiveDelta.
pub record LiveDelta : Type 0 where
  pub spans : List LiveSpan
  pub evals : List SpanEvalResult
  pub cursor : LiveCursor
  pub root_seen : Bool

-- LiveTraceState. The maps keep their order of insertion.
pub record LiveTraceState : Type 0 where
  pub trace_id : String
  pub spans : Dict String LiveSpan
  pub evals : Dict String SpanEvalResult
  pub cursor : LiveCursor
  pub root_seen : Bool

-- maxCursor.
unfoldable pub max_cursor : LiveCursor → LiveCursor → LiveCursor
max_cursor a b = record { span_ms = max a.span_ms b.span_ms; eval_ms = max a.eval_ms b.eval_ms }

-- evalKey.
unfoldable pub eval_key : SpanEvalResult → String
eval_key r = String.◌++◌ r.eval_id (String.◌++◌ "\0" r.span_id)

-- The loop of applyDelta over `delta.spans`: the map `next`, and whether it changed.
unfoldable pub merge_spans :
    List LiveSpan → Dict String LiveSpan × Bool → Dict String LiveSpan × Bool
merge_spans [] acc = acc
merge_spans (span ∷ spans) (next, changed) = merge_spans spans (
    if Dict.has span.span_id next then (next, changed) else (Dict.set span.span_id span next, true))

-- `!existing || result.evalVersion > existing.evalVersion`.
abbrev pub is_newer : SpanEvalResult → Option SpanEvalResult → Bool
is_newer result none = true
is_newer result (some existing) = ltb existing.eval_version result.eval_version

-- The loop of applyDelta over `delta.evals`.
unfoldable pub merge_evals :
    List SpanEvalResult → Dict String SpanEvalResult × Bool → Dict String SpanEvalResult × Bool
merge_evals [] acc = acc
merge_evals (result ∷ results) (next, changed) = merge_evals results (
    if is_newer result (Dict.get (eval_key result) next)
    then (Dict.set (eval_key result) result next, true)
    else (next, changed))

abbrev pub bool_eq : Bool → Bool → Bool
bool_eq true b = b
bool_eq false b = not b

-- applyDelta. `changed` of the source is `spans_changed || evals_changed`.
unfoldable pub apply_delta : LiveTraceState → LiveDelta → LiveTraceState
apply_delta state delta =
    let (next_spans, spans_changed) = merge_spans delta.spans (state.spans, false) in
    let (next_evals, evals_changed) = merge_evals delta.evals (state.evals, false) in
    let cursor = max_cursor state.cursor delta.cursor in
    let root_seen = state.root_seen || delta.root_seen in
    if not (spans_changed || evals_changed)
      && nat_beq cursor.span_ms state.cursor.span_ms
      && nat_beq cursor.eval_ms state.cursor.eval_ms
      && bool_eq root_seen state.root_seen
    then state
    else record {
      trace_id = state.trace_id;
      spans = if spans_changed then next_spans else state.spans;
      evals = if evals_changed then next_evals else state.evals;
      cursor = cursor;
      root_seen = root_seen;
    }

-- ===== src/Live/View.antt =====
-- seedLiveState and deriveTraceView of apps/dashboard/lib/live.ts.
use trace_bloom.Base.{ℕ, ◌+◌, ◌-◌, String, Bool, not, List, [], ◌∷◌, map, string_eq}
use trace_bloom.Dict
use trace_bloom.Dict.{Dict, values}
use trace_bloom.Traces.{TraceSpan, TraceSummary, SpanEvalResult, LiveCursor}
use trace_bloom.Traces.Double.{to_number}
use trace_bloom.Traces.Detail.{min_start, summarize}
use trace_bloom.Live.{LiveSpan, LiveTraceState, eval_key}

-- `{ ...rest, startNs }`.
unfoldable pub to_live_span : ℕ → TraceSpan → LiveSpan
to_live_span anchor s = record {
  span_id = s.span_id;
  parent_span_id = s.parent_span_id;
  name = s.name;
  kind = s.kind;
  status_code = s.status_code;
  status_message = s.status_message;
  service_name = s.service_name;
  operation_name = s.operation_name;
  provider = s.provider;
  request_model = s.request_model;
  response_model = s.response_model;
  input_tokens = s.input_tokens;
  output_tokens = s.output_tokens;
  total_tokens = s.total_tokens;
  cost_usd = s.cost_usd;
  start_ns = anchor + s.start_offset_ns;
  duration_ns = s.duration_ns;
  tool_name = s.tool_name;
  prompt_version = s.prompt_version;
  retry_attempt = s.retry_attempt;
  ingested_ms = s.ingested_ms;
}

-- `{ ...rest, startOffsetNs }`.
unfoldable pub of_live_span : ℕ → LiveSpan → TraceSpan
of_live_span least s = record {
  span_id = s.span_id;
  parent_span_id = s.parent_span_id;
  name = s.name;
  kind = s.kind;
  status_code = s.status_code;
  status_message = s.status_message;
  service_name = s.service_name;
  operation_name = s.operation_name;
  provider = s.provider;
  request_model = s.request_model;
  response_model = s.response_model;
  input_tokens = s.input_tokens;
  output_tokens = s.output_tokens;
  total_tokens = s.total_tokens;
  cost_usd = s.cost_usd;
  start_offset_ns = to_number (s.start_ns - least);
  duration_ns = s.duration_ns;
  tool_name = s.tool_name;
  prompt_version = s.prompt_version;
  retry_attempt = s.retry_attempt;
  ingested_ms = s.ingested_ms;
}

unfoldable pub seed_spans : ℕ → List TraceSpan → Dict String LiveSpan → Dict String LiveSpan
seed_spans anchor [] m = m
seed_spans anchor (s ∷ ss) m = seed_spans anchor ss (Dict.set s.span_id (to_live_span anchor s) m)

unfoldable pub seed_evals :
    List SpanEvalResult → Dict String SpanEvalResult → Dict String SpanEvalResult
seed_evals [] m = m
seed_evals (r ∷ rs) m = seed_evals rs (Dict.set (eval_key r) r m)

-- The argument of seedLiveState.
pub record LiveSeed : Type 0 where
  pub trace_id : String
  pub anchor_start_ns : ℕ
  pub spans : List TraceSpan
  pub eval_results : List SpanEvalResult
  pub cursor : LiveCursor
  pub root_seen : Bool

unfoldable pub seed_live_state : LiveSeed → LiveTraceState
unfolding seed_spans seed_evals
seed_live_state init = record {
  trace_id = init.trace_id;
  spans = seed_spans init.anchor_start_ns init.spans [];
  evals = seed_evals init.eval_results [];
  cursor = init.cursor;
  root_seen = init.root_seen;
}

-- LiveTraceView.
pub record LiveTraceView : Type 0 where
  pub trace : TraceSummary
  pub spans : List TraceSpan
  pub eval_results : List SpanEvalResult
  pub anchor_start_ns : ℕ
  pub running : Bool

-- deriveTraceView. Its loop over the spans is that of getTraceDetail, less two variables.
unfoldable pub derive_trace_view : LiveTraceState → LiveTraceView
derive_trace_view state =
    let live_spans = values state.spans in
    let least = min_start (map (λ s. s.start_ns) live_spans) in
    let spans = map (of_live_span least) live_spans in
    record {
      trace = summarize state.trace_id least spans;
      spans = spans;
      eval_results = values state.evals;
      anchor_start_ns = least;
      running = not state.root_seen;
    }

-- ===== src/Traces/Detail.antt =====
-- getTraceDetail of apps/dashboard/lib/traces.ts, on the rows that its two queries return.
use trace_bloom.Base.{
  ℕ, ◌+◌, ◌-◌, ◌*◌, ◌/◌, max, String, Bool, false, ◌&&◌, ◌||◌, not, List, [], ◌∷◌, ◌++◌, map,
  Option, none, some, ltb, if◌then◌else◌, length, take, ◌==◌, string_eq, elem, foldl,
}
use trace_bloom.Text.{str_lt, is_empty}
use trace_bloom.Text.Sort.{sort}
use trace_bloom.Traces.Double.{to_number}
use trace_bloom.Traces.{
  TraceSpan, TraceSummary, SpanEvalResult, LiveCursor, RawSpanRow, RawEvalRow, map_eval_row,
}

-- TraceDetail.
pub record TraceDetail : Type 0 where
  pub trace : TraceSummary
  pub spans : List TraceSpan
  pub eval_results : List SpanEvalResult
  pub truncated : Bool
  pub cursor : LiveCursor
  pub anchor_start_ns : ℕ
  pub running : Bool

-- The loop over `startsNs`, from the first start: their minimum, and 0 where there are none.
unfoldable pub min_from : ℕ → List ℕ → ℕ
min_from m [] = m
min_from m (v ∷ vs) = min_from (if ltb v m then v else m) vs

unfoldable pub min_start : List ℕ → ℕ
unfolding min_from
min_start [] = 0
min_start (v ∷ vs) = min_from v (v ∷ vs)

-- One row of `rows.map(...)`.
unfoldable pub to_trace_span : ℕ → RawSpanRow → TraceSpan
to_trace_span least r = record {
  span_id = r.span_id;
  parent_span_id = r.parent_span_id;
  name = r.name;
  kind = r.kind;
  status_code = r.status_code;
  status_message = r.status_message;
  service_name = r.service_name;
  operation_name = r.operation_name;
  provider = r.provider;
  request_model = r.request_model;
  response_model = r.response_model;
  input_tokens = r.input_tokens;
  output_tokens = r.output_tokens;
  total_tokens = r.total_tokens;
  cost_usd = r.cost_usd;
  start_offset_ns = to_number (r.start_ns - least);
  duration_ns = r.duration_ns;
  tool_name = r.tool_name;
  prompt_version = r.prompt_version;
  retry_attempt = r.retry_attempt;
  ingested_ms = r.ingested_ms;
}

-- The variables of the loop over the spans.
pub record Totals : Type 0 where
  pub end_ns : ℕ
  pub error_count : ℕ
  pub input_tokens : ℕ
  pub output_tokens : ℕ
  pub total_tokens : ℕ
  pub cost_usd : ℕ
  pub span_ms : ℕ
  pub root_seen : Bool
  pub service_names : List String
  pub models : List String

abbrev pub no_totals : Totals
no_totals = record {
  end_ns = 0;
  error_count = 0;
  input_tokens = 0;
  output_tokens = 0;
  total_tokens = 0;
  cost_usd = 0;
  span_ms = 0;
  root_seen = false;
  service_names = [];
  models = [];
}

-- `if (name) names.add(name)`.
unfoldable pub add_name : String → List String → List String
add_name name names = if is_empty name || elem name names then names else names ++ name ∷ []

-- The body of that loop.
unfoldable pub add_span : Totals → TraceSpan → Totals
add_span t span = record {
  end_ns = max t.end_ns (span.start_offset_ns + span.duration_ns);
  error_count = t.error_count + (if span.status_code == "ERROR" then 1 else 0);
  input_tokens = t.input_tokens + span.input_tokens;
  output_tokens = t.output_tokens + span.output_tokens;
  total_tokens = t.total_tokens + span.total_tokens;
  cost_usd = t.cost_usd + span.cost_usd;
  span_ms = max t.span_ms span.ingested_ms;
  root_seen = t.root_seen || is_empty span.parent_span_id;
  service_names = add_name span.service_name t.service_names;
  models = add_name span.request_model t.models;
}

unfoldable pub totals : List TraceSpan → Totals
unfolding add_span
totals spans = foldl add_span no_totals spans

unfoldable pub summarize : String → ℕ → List TraceSpan → TraceSummary
unfolding totals
summarize trace_id least spans =
    let t = totals spans in
    record {
      trace_id = trace_id;
      start_time = least / 1_000_000;
      duration_ns = t.end_ns;
      span_count = length spans;
      error_count = t.error_count;
      input_tokens = t.input_tokens;
      output_tokens = t.output_tokens;
      total_tokens = t.total_tokens;
      cost_usd = t.cost_usd;
      service_names = sort str_lt t.service_names;
      models = sort str_lt t.models;
    }

-- TRACE_SPAN_CAP and RUNNING_STALE_MS.
unfoldable pub trace_span_cap : ℕ
trace_span_cap = 10_000

unfoldable pub running_stale_ms : ℕ
running_stale_ms = 10 * 60 * 1000

-- The loop of queryTraceEvals: the highest evaluated_ms.
unfoldable pub eval_watermark : ℕ → List RawEvalRow → ℕ
eval_watermark m [] = m
eval_watermark m (r ∷ rs) = eval_watermark (max m r.evaluated_ms) rs

unfoldable pub kept_rows : List RawSpanRow → List RawSpanRow
kept_rows raw = if ltb trace_span_cap (length raw) then take trace_span_cap raw else raw

-- getTraceDetail, from `const evalResults` on.
unfoldable pub detail_of : String → List RawSpanRow → List RawEvalRow → ℕ → TraceDetail
unfolding min_start summarize eval_watermark
detail_of trace_id raw evals now =
    let rows = kept_rows raw in
    let least = min_start (map (λ r. r.start_ns) rows) in
    let spans = map (to_trace_span least) rows in
    let t = totals spans in
    record {
      trace = summarize trace_id least spans;
      spans = spans;
      eval_results = map map_eval_row evals;
      truncated = ltb trace_span_cap (length raw);
      cursor = record { span_ms = t.span_ms; eval_ms = eval_watermark 0 evals };
      anchor_start_ns = least;
      running = not t.root_seen && ltb now (t.span_ms + running_stale_ms);
    }

unfoldable pub get_trace_detail :
    String → List RawSpanRow → List RawEvalRow → ℕ → Option TraceDetail
unfolding detail_of
get_trace_detail trace_id [] evals now = none
get_trace_detail trace_id (r ∷ rs) evals now = some (detail_of trace_id (r ∷ rs) evals now)

-- ===== src/Traces/Opened.antt =====
-- getSpanDetail of apps/dashboard/lib/traces.ts, on the rows that its two queries return. What
-- JSON.parse makes of a text is a record: none where it throws or gives no object.
use trace_bloom.Base.{ℕ, String, Option, none, some, List, [], ◌∷◌, ◌⊎◌, inl, inr, map, or_else}

pub record Json : Type 1 where
  pub Object : Type 0
  pub parse_object : String → Option Object
  pub no_fields : Object

-- The body of an event: an object, or the text as it was.
abbrev pub Body : Json → Type 0
Body j = j.Object ⊎ String

pub record SpanEvent (j : Json) : Type 0 where
  pub index : ℕ
  pub name : String
  pub timestamp : String
  pub body : Body j

pub record SpanDetail (j : Json) : Type 0 where
  pub span_id : String
  pub parent_span_id : String
  pub name : String
  pub kind : String
  pub status_code : String
  pub status_message : String
  pub service_name : String
  pub scope_name : String
  pub operation_name : String
  pub provider : String
  pub request_model : String
  pub response_model : String
  pub response_id : String
  pub finish_reasons : List String
  pub input_tokens : ℕ
  pub output_tokens : ℕ
  pub total_tokens : ℕ
  pub cost_usd : ℕ
  pub start_time : String
  pub duration_ns : ℕ
  pub attributes : j.Object
  pub resource_attributes : j.Object
  pub events : List (SpanEvent j)

pub record RawSpanDetailRow : Type 0 where
  pub span_id : String
  pub parent_span_id : String
  pub name : String
  pub kind : String
  pub status_code : String
  pub status_message : String
  pub service_name : String
  pub scope_name : String
  pub operation_name : String
  pub provider : String
  pub request_model : String
  pub response_model : String
  pub response_id : String
  pub finish_reasons : List String
  pub input_tokens : ℕ
  pub output_tokens : ℕ
  pub total_tokens : ℕ
  pub cost_usd : ℕ
  pub start_time : String
  pub duration_ns : ℕ
  pub attributes_json : String
  pub resource_attributes_json : String

pub record RawEventRow : Type 0 where
  pub event_index : ℕ
  pub name : String
  pub timestamp : String
  pub body : String

-- parseJsonObject.
unfoldable pub parse_json_object : (j : Json) → String → j.Object
parse_json_object j json = or_else (j.parse_object json) j.no_fields

-- parseEventBody.
unfoldable pub parse_event_body : (j : Json) → String → Body j
parse_event_body j body = elim (j.parse_object body) [ none ↦ inr body | some object ↦ inl object ]

unfoldable pub to_span_event : (j : Json) → RawEventRow → SpanEvent j
unfolding parse_event_body
to_span_event j e = record {
  index = e.event_index;
  name = e.name;
  timestamp = e.timestamp;
  body = parse_event_body j e.body;
}

-- The result for the first row of the span.
unfoldable pub to_span_detail : (j : Json) → RawSpanDetailRow → List RawEventRow → SpanDetail j
unfolding parse_json_object to_span_event
to_span_detail j row event_rows = record {
  span_id = row.span_id;
  parent_span_id = row.parent_span_id;
  name = row.name;
  kind = row.kind;
  status_code = row.status_code;
  status_message = row.status_message;
  service_name = row.service_name;
  scope_name = row.scope_name;
  operation_name = row.operation_name;
  provider = row.provider;
  request_model = row.request_model;
  response_model = row.response_model;
  response_id = row.response_id;
  finish_reasons = row.finish_reasons;
  input_tokens = row.input_tokens;
  output_tokens = row.output_tokens;
  total_tokens = row.total_tokens;
  cost_usd = row.cost_usd;
  start_time = row.start_time;
  duration_ns = row.duration_ns;
  attributes = parse_json_object j row.attributes_json;
  resource_attributes = parse_json_object j row.resource_attributes_json;
  events = map (to_span_event j) event_rows;
}

-- getSpanDetail.
unfoldable pub get_span_detail :
    (j : Json) → List RawSpanDetailRow → List RawEventRow → Option (SpanDetail j)
unfolding to_span_detail
get_span_detail j [] event_rows = none
get_span_detail j (row ∷ rows) event_rows = some (to_span_detail j row event_rows)

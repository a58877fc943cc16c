-- ===== src/Runner/Spans.antt =====
-- apps/eval-runner/src/spans.ts: from stored rows to what an evaluator reads, and sampling.
use trace_bloom.Base.{
  ◌*◌, String, Bool, true, false, ◌||◌, Option, none, some, List, [], ◌∷◌, ◌++◌, ltb, nat_beq,
  if◌then◌else◌, elem, string_eq,
}
use trace_bloom.Dict
use trace_bloom.Text.{◌+++◌}
use trace_bloom.Json.{Number, at_least, Value, text, number, other, Json, object, array, scalar}
use trace_bloom.Results.{EvaluatedSpan}
use trace_bloom.Runner.{Host, SpanRow, SpanEventRow}

abbrev pub input_events : List String
input_events = "gen_ai.system.message" ∷ "gen_ai.user.message" ∷ "gen_ai.tool.message" ∷ []

abbrev pub output_events : List String
output_events = "gen_ai.choice" ∷ "gen_ai.assistant.message" ∷ []

-- `typeof content === 'string' ? content : JSON.stringify(content)`.
abbrev pub content_text : Host → Value → String
content_text h (text s) = s
content_text h (number n) = h.stringify (number n)
content_text h (other s) = h.stringify (other s)

unfoldable pub content_of : Host → String → Option Json → String
content_of h body none = body
content_of h body (some array) = body
content_of h body (some scalar) = body
content_of h body (some (object fields)) = elim (Dict.get "content" fields) [
  | none ↦ body
  | some content ↦ content_text h content
]

-- eventContent.
unfoldable pub event_content : Host → String → String
unfolding content_of
event_content h body = content_of h body (h.parse body)

-- `parts.join('\n')`.
unfoldable pub join_lines : List String → String
join_lines [] = ""
join_lines (part ∷ []) = part
join_lines (part ∷ next ∷ parts) = part +++ "\n" +++ join_lines (next ∷ parts)

pub record SpanText : Type 0 where
  pub input : List String
  pub output : List String

-- The body of the loop of reconstructIO.
unfoldable pub add_event : Host → SpanText → SpanEventRow → SpanText
unfolding event_content
add_event h io event =
    if elem event.name input_events
    then record io { input = io.input ++ event_content h event.body ∷ [] }
    else if elem event.name output_events
    then record io { output = io.output ++ event_content h event.body ∷ [] }
    else io

unfoldable pub add_events : Host → SpanText → List SpanEventRow → SpanText
unfolding add_event
add_events h io [] = io
add_events h io (event ∷ events) = add_events h (add_event h io event) events

-- reconstructIO: the input and the output.
unfoldable pub reconstruct_io : Host → List SpanEventRow → String × String
unfolding add_events join_lines
reconstruct_io h events =
    let io = add_events h (record { input = []; output = [] }) events in
    (join_lines io.input, join_lines io.output)

-- parseAttributes.
unfoldable pub attributes_of : Option Json → Json
attributes_of none = object []
attributes_of (some (object fields)) = object fields
attributes_of (some array) = array
attributes_of (some scalar) = object []

-- toEvaluatedSpan.
unfoldable pub to_evaluated_span : Host → SpanRow → EvaluatedSpan
unfolding attributes_of
to_evaluated_span h row = record {
  trace_id = row.trace_id;
  span_id = row.span_id;
  response_id = row.response_id;
  request_model = row.request_model;
  operation_name = row.operation_name;
  service_name = row.service_name;
  prompt_version = row.prompt_version;
  span_start_time = row.span_start_time;
  attributes = attributes_of (h.parse row.attributes_json);
}

-- sampleDecision: the quotient by 0xffffffff is compared with the rate as a fraction.
unfoldable pub sample_decision : Host → String → Number → Bool
sample_decision h span_id rate =
    if at_least 1 1 rate
    then true
    else if rate.negative || nat_beq rate.num 0
    then false
    else ltb (h.sample_prefix span_id * rate.den) (rate.num * 0xffffffff)

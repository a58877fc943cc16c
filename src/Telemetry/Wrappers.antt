-- ===== src/Telemetry/Wrappers.antt =====
-- packages/sdk-ts/src/openai.ts and packages/sdk-ts/src/agent.ts: wrappers that run a call inside a
-- span. The span is the wrapper's own; spans that start while the call runs are others.
use trace_bloom.Base.{
  ℕ, String, Option, none, some, List, [], ◌∷◌, if◌then◌else◌, or_else, string_eq,
}
use trace_bloom.Dict
use trace_bloom.Dict.{Dict}
use trace_bloom.Text.{◌+++◌}
use trace_bloom.Json.{Number, truthy}
use trace_bloom.Pricing.{compute_cost}
use trace_bloom.Telemetry.{
  internal, client, fine, failed, AttributeValue, text, texts, number, tokens, cost, Span, Setup,
  set_attribute, set_text, set_number, add_event, end_span, set_status, apply_tag, new_span,
}
use trace_bloom.Telemetry.Content.{Content, undefined, null_value, parts, json}

-- ChatCompletionRequest.
pub record ChatCompletionRequest : Type 0 where
  pub model : String
  pub messages : List (Option String × Content)
  pub temperature : Option Number
  pub top_p : Option Number
  pub max_tokens : Option Number

-- ChatCompletionChoice, with the content of its message.
pub record ChatCompletionChoice : Type 0 where
  pub finish_reason : Option String
  pub content : Content

-- ChatCompletionResponse, with the fields of its usage.
pub record ChatCompletionResponse : Type 0 where
  pub id : Option String
  pub model : Option String
  pub choices : List ChatCompletionChoice
  pub prompt_tokens : Option ℕ
  pub completion_tokens : Option ℕ

-- What an awaited call does: it returns a value, or throws an error with a message.
pub data Attempt {ℓ} (T : Type ℓ) : Type ℓ where
  returned : T → Attempt T
  threw : String → Attempt T

-- stringifyContent of openai.ts, which does not look into parts.
abbrev pub stringify_plain : Content → String
stringify_plain (Content.text s) = s
stringify_plain undefined = ""
stringify_plain null_value = ""
stringify_plain (parts ps whole) = whole
stringify_plain (json whole) = whole

-- The loop over the messages of a request.
unfoldable pub add_request_messages : List (Option String × Content) → Span → Span
add_request_messages [] s = s
add_request_messages ((role, content) ∷ messages) s =
    add_request_messages messages (
      add_event ("gen_ai." +++ or_else role "user" +++ ".message") none (stringify_plain content) s)

-- recordRequest.
unfoldable pub record_request : Setup → ChatCompletionRequest → Span → Span
unfolding set_text set_number apply_tag add_request_messages
record_request setup params s =
    let described = set_number "gen_ai.request.max_tokens" params.max_tokens (
      set_number "gen_ai.request.top_p" params.top_p (
        set_number "gen_ai.request.temperature" params.temperature (
          apply_tag setup (
            set_attribute "gen_ai.request.model" (text params.model) (
              set_attribute "gen_ai.provider.name" (text "openai")
                (set_attribute "gen_ai.operation.name" (text "chat") s)))))) in
    if setup.capture_content then add_request_messages params.messages described else described

-- The finish reasons that are strings.
unfoldable pub finish_reasons : List ChatCompletionChoice → List String
finish_reasons [] = []
finish_reasons (choice ∷ choices) =
    let rest = finish_reasons choices in
    elim choice.finish_reason [ none ↦ rest | some reason ↦ reason ∷ rest ]

unfoldable pub set_texts : String → List String → Span → Span
set_texts key [] s = s
set_texts key (t ∷ ts) s = set_attribute key (texts (t ∷ ts)) s

-- An event for each choice, in their order; its index is its place among them.
unfoldable pub add_choices : List ChatCompletionChoice → Span → Span
add_choices [] s = s
add_choices (choice ∷ choices) s = add_choices choices (
    add_event "gen_ai.choice" (some (or_else choice.finish_reason ""))
      (stringify_plain choice.content) s)

-- recordResponse.
unfoldable pub record_response :
    Setup → ChatCompletionRequest → ChatCompletionResponse → Span → Span
unfolding set_text set_texts finish_reasons add_choices compute_cost
record_response setup params response s =
    let model = or_else response.model params.model in
    let input = or_else response.prompt_tokens 0 in
    let output = or_else response.completion_tokens 0 in
    let price = compute_cost setup.inherited model input output setup.pricing in
    let described = set_attribute "tracebloom.cost.total_usd" (cost price.total_usd) (
      set_attribute "tracebloom.cost.output_usd" (cost price.output_usd) (
        set_attribute "tracebloom.cost.input_usd" (cost price.input_usd) (
          set_attribute "gen_ai.usage.output_tokens" (tokens output) (
            set_attribute "gen_ai.usage.input_tokens" (tokens input) (
              set_texts "gen_ai.response.finish_reasons" (finish_reasons response.choices) (
                set_text "gen_ai.response.id" response.id
                  (set_attribute "gen_ai.response.model" (text model) s))))))) in
    if setup.capture_content then add_choices response.choices described else described

-- The `catch` and the `finally`.
abbrev pub fail_span : String → Span → Span
fail_span message s = end_span (add_event "exception" none message (set_status (failed message) s))

abbrev pub finish_create :
    Setup → ChatCompletionRequest → Span → Attempt ChatCompletionResponse → Span
finish_create setup params s (returned response) =
    end_span (set_status fine (record_response setup params response s))
finish_create setup params s (threw message) = fail_span message s

-- wrapChatCompletionCreate: what the caller gets, and the span.
unfoldable pub traced_create :
    Setup
    → Option ℕ
    → (ChatCompletionRequest → Attempt ChatCompletionResponse)
    → ChatCompletionRequest
    → Attempt ChatCompletionResponse × Span
unfolding record_request record_response
traced_create setup active create params =
    let span = record_request setup params (new_span ("chat " +++ params.model) client active []) in
    let response = create params in (response, finish_create setup params span response)

abbrev pub finish_call {ℓ} : {T : Type ℓ} → Span → Attempt T → Span
finish_call s (returned value) = end_span (set_status fine s)
finish_call s (threw message) = fail_span message s

-- withGenAISpan.
unfoldable pub with_gen_ai_span {ℓ} :
    {T : Type ℓ}
    → Option ℕ
    → String
    → Dict String AttributeValue
    → (Span → Attempt T)
    → Attempt T × Span
with_gen_ai_span active name attributes fn =
    let span = new_span name internal active attributes in
    let result = fn span in (result, finish_call span result)

-- AgentSpanOptions and ToolSpanOptions.
pub record AgentSpanOptions : Type 0 where
  pub name : String
  pub agent_id : Option String
  pub retry_attempt : Option Number
  pub attributes : Dict String AttributeValue

pub record ToolSpanOptions : Type 0 where
  pub name : String
  pub call_id : Option String
  pub description : Option String
  pub retry_attempt : Option Number
  pub attributes : Dict String AttributeValue

-- `...attributes`: later keys win.
unfoldable pub spread :
    Dict String AttributeValue → Dict String AttributeValue → Dict String AttributeValue
spread [] base = base
spread ((key, value) ∷ extra) base = spread extra (Dict.set key value base)

abbrev pub put_text :
    String → Option String → Dict String AttributeValue → Dict String AttributeValue
put_text key value attributes =
    if truthy value then Dict.set key (text (or_else value "")) attributes else attributes

abbrev pub put_number :
    String → Option Number → Dict String AttributeValue → Dict String AttributeValue
put_number key none attributes = attributes
put_number key (some n) attributes = Dict.set key (number n) attributes

-- withAgentSpan.
unfoldable pub with_agent_span {ℓ} :
    {T : Type ℓ} → Option ℕ → AgentSpanOptions → (Span → Attempt T) → Attempt T × Span
unfolding with_gen_ai_span spread
with_agent_span active opts fn =
    with_gen_ai_span active ("invoke_agent " +++ opts.name)
      (put_number "tracebloom.retry.attempt" opts.retry_attempt (
        put_text "gen_ai.agent.id" opts.agent_id (
          spread opts.attributes (
            ("gen_ai.operation.name", text "invoke_agent")
            ∷ ("gen_ai.agent.name", text opts.name)
            ∷ []))))
      fn

-- withToolSpan.
unfoldable pub with_tool_span {ℓ} :
    {T : Type ℓ} → Option ℕ → ToolSpanOptions → (Span → Attempt T) → Attempt T × Span
unfolding with_gen_ai_span spread
with_tool_span active opts fn =
    with_gen_ai_span active ("execute_tool " +++ opts.name)
      (put_number "tracebloom.retry.attempt" opts.retry_attempt (
        put_text "gen_ai.tool.description" opts.description (
          put_text "gen_ai.tool.call.id" opts.call_id (
            spread opts.attributes (
              ("gen_ai.operation.name", text "execute_tool")
              ∷ ("gen_ai.tool.name", text opts.name)
              ∷ [])))))
      fn

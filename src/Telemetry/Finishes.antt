-- ===== src/Telemetry/Finishes.antt =====
-- packages/sdk-ts/src/vercel.ts: the handlers of createAISDKTelemetry that end spans, and the contexts in
-- which a phase runs.
use trace_bloom.Base.{
  ℕ, String, ◌&&◌, ◌||◌, Option, none, some, List, [], ◌∷◌, ◌++◌, if◌then◌else◌, nat_beq, nat_eq,
  string_eq, or_else,
}
use trace_bloom.Dict
use trace_bloom.Dict.{Dict, values}
use trace_bloom.Text.{is_empty}
use trace_bloom.Json.{truthy}
use trace_bloom.Pricing.{compute_cost}
use trace_bloom.Telemetry.{
  fine, failed, texts, tokens, cost, Span, OperationState, Telemetry, Setup, modify_at,
  set_attribute, set_text, add_event, end_span, set_status,
}
use trace_bloom.Telemetry.Content.{
  stringify_content, is_present, is_defined, AisdkModelCallEndEvent, AisdkToolEndEvent,
}
use trace_bloom.Telemetry.Starts.{put, change_span}

-- The costs that onLanguageModelCallEnd sets where a model is named.
unfoldable pub set_costs : Setup → String → ℕ → ℕ → Span → Span
unfolding compute_cost
set_costs setup model input_tokens output_tokens s =
    let price = compute_cost setup.inherited model input_tokens output_tokens setup.pricing in
    if is_empty model
    then s
    else set_attribute "tracebloom.cost.total_usd" (cost price.total_usd) (
        set_attribute "tracebloom.cost.output_usd" (cost price.output_usd)
          (set_attribute "tracebloom.cost.input_usd" (cost price.input_usd) s))

unfoldable pub set_finish : Option String → Span → Span
set_finish reason s =
    if truthy reason
    then set_attribute "gen_ai.response.finish_reasons" (texts (or_else reason "" ∷ [])) s
    else s

-- What onLanguageModelCallEnd does with the span.
unfoldable pub finish_model : Setup → AisdkModelCallEndEvent → Span → Span
unfolding set_costs set_finish set_text stringify_content
finish_model setup event s =
    let input = or_else event.input_tokens 0 in
    let output = or_else event.output_tokens 0 in
    let described = set_costs setup (or_else event.model_id "") input output (
      set_attribute "gen_ai.usage.output_tokens" (tokens output) (
        set_attribute "gen_ai.usage.input_tokens" (tokens input) (
          set_finish event.finish_reason (
            set_text "gen_ai.response.id" event.response_id
              (set_text "gen_ai.response.model" event.model_id s))))) in
    end_span (
      set_status fine (
        if setup.capture_content && is_present event.content
        then add_event "gen_ai.choice" (some (or_else event.finish_reason ""))
            (stringify_content event.content) described
        else described))

-- The end of the call on top of the stack.
unfoldable pub end_model :
    Setup → AisdkModelCallEndEvent → OperationState → List ℕ → Telemetry → Telemetry
unfolding finish_model
end_model setup event state [] t = t
end_model setup event state (span ∷ stack) t =
    change_span span (finish_model setup event)
      (put event.call_id (record state { model_stack = stack }) t)

unfoldable pub on_language_model_call_end : Setup → AisdkModelCallEndEvent → Telemetry → Telemetry
unfolding end_model
on_language_model_call_end setup event t = elim (Dict.get event.call_id t.ops) [
  | none ↦ t
  | some state ↦ end_model setup event state state.model_stack t
]

-- What onToolExecutionEnd does with the span.
unfoldable pub finish_tool : Setup → AisdkToolEndEvent → Span → Span
unfolding stringify_content
finish_tool setup event s = end_span (
    if event.is_tool_error || is_defined event.error
    then set_status (failed (stringify_content event.error)) s
    else set_status fine (
        if setup.capture_content && is_defined event.output
        then add_event "gen_ai.choice" (some "") (stringify_content event.output) s
        else s))

unfoldable pub end_tool :
    Setup → AisdkToolEndEvent → String → OperationState → Telemetry → Telemetry
unfolding finish_tool
end_tool setup event id state t = elim (Dict.get id state.tool_spans) [
  | none ↦ t
  | some span ↦
      change_span span (finish_tool setup event)
        (put event.call_id (record state { tool_spans = Dict.delete id state.tool_spans }) t)
]

unfoldable pub on_tool_execution_end : Setup → AisdkToolEndEvent → Telemetry → Telemetry
unfolding end_tool
on_tool_execution_end setup event t = elim (Dict.get event.call_id t.ops) [
  | none ↦ t
  | some state ↦
      if truthy event.tool_call_id
      then end_tool setup event (or_else event.tool_call_id "") state t
      else t
]

abbrev pub clear_step : Option ℕ → ℕ → Option ℕ
clear_step none span = none
clear_step (some current) span = if nat_beq current span then none else some current

unfoldable pub end_step : String → ℕ → OperationState → Telemetry → Telemetry
end_step call_id step state t = elim (Dict.get step state.steps) [
  | none ↦ t
  | some span ↦
      change_span span (λ s. end_span (set_status fine s))
        (put call_id
          (record state {
            steps = Dict.delete step state.steps;
            current_step = clear_step state.current_step span;
          })
          t)
]

-- onStepEnd.
unfoldable pub on_step_end : String → Option ℕ → Telemetry → Telemetry
unfolding end_step
on_step_end call_id none t = t
on_step_end call_id (some step) t = elim (Dict.get call_id t.ops) [
  | none ↦ t
  | some state ↦ end_step call_id step state t
]

-- One of the loops of onEnd.
unfoldable pub end_all : List ℕ → List Span → List Span
end_all [] spans = spans
end_all (i ∷ open_spans) spans = end_all open_spans (modify_at i end_span spans)

-- The spans that an operation still holds, without its own.
abbrev pub open_spans_of : OperationState → List ℕ
open_spans_of state = state.model_stack ++ (values state.tool_spans ++ values state.steps)

-- onEnd.
unfoldable pub on_end : String → Telemetry → Telemetry
unfolding end_all
on_end call_id t = elim (Dict.get call_id t.ops) [
  | none ↦ t
  | some state ↦ record {
    spans =
        modify_at state.span (λ s. end_span (set_status fine s))
          (end_all (open_spans_of state) t.spans);
    ops = Dict.delete call_id t.ops;
  }
]

-- The context in which executeLanguageModelCall runs its phase: that of the call on top of the
-- stack, or none where it runs in the caller's.
unfoldable pub model_context : String → Telemetry → Option ℕ
model_context call_id t = elim (Dict.get call_id t.ops) [
  | none ↦ none
  | some state ↦ elim state.model_stack [ [] ↦ none | span ∷ stack ↦ some span ]
]

-- And executeTool.
unfoldable pub tool_context : String → String → Telemetry → Option ℕ
tool_context call_id tool_call_id t = elim (Dict.get call_id t.ops) [
  | none ↦ none
  | some state ↦ Dict.get tool_call_id state.tool_spans
]

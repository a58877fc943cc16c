-- ===== src/Telemetry/Starts.antt =====
-- packages/sdk-ts/src/vercel.ts: the handlers of createAISDKTelemetry that start spans.
use trace_bloom.Base.{
  ℕ, String, Bool, ◌&&◌, not, Option, none, some, List, [], ◌∷◌, ◌++◌, length, if◌then◌else◌, elem,
  nat_eq, string_eq, or_else,
}
use trace_bloom.Dict
use trace_bloom.Dict.{Dict, values}
use trace_bloom.Text.{◌+++◌, is_empty}
use trace_bloom.Json.{truthy}
use trace_bloom.Telemetry.{
  internal, client, text, Span, OperationState, Telemetry, Setup, modify_at, set_text, set_number,
  add_event, apply_tag, new_span,
}
use trace_bloom.Telemetry.Content.{
  stringify_content, is_present, is_defined, generation_operations, Content,
  AisdkOperationStartEvent, AisdkModelCallStartEvent, AisdkToolStartEvent,
}

-- operationName. What `replace` makes of an operation's id is a parameter.
abbrev pub operation_name : (String → String) → AisdkOperationStartEvent → String
operation_name strip event =
    if truthy event.function_id
    then or_else event.function_id ""
    else strip (or_else event.operation_id "ai.generateText")

-- parentCtxFor.
abbrev pub parent_ctx_for : OperationState → ℕ
parent_ctx_for state = or_else state.current_step state.span

abbrev pub put : String → OperationState → Telemetry → Telemetry
put call_id state t = record t { ops = Dict.set call_id state t.ops }

abbrev pub push_span : Span → Telemetry → Telemetry
push_span s t = record t { spans = t.spans ++ s ∷ [] }

abbrev pub change_span : ℕ → (Span → Span) → Telemetry → Telemetry
change_span i f t = record t { spans = modify_at i f t.spans }

-- An operation that is named, and is none of the four.
abbrev pub is_foreign : AisdkOperationStartEvent → Bool
is_foreign event =
    truthy event.operation_id && not (elem (or_else event.operation_id "") generation_operations)

-- onStart, in the active context. The host's onRunStart is left out.
unfoldable pub on_start :
    Setup → (String → String) → Option ℕ → AisdkOperationStartEvent → Telemetry → Telemetry
unfolding apply_tag
on_start setup strip active event t =
    let name = operation_name strip event in
    let span =
      new_span ("invoke_agent " +++ name) internal active
        (("gen_ai.operation.name", text "invoke_agent") ∷ ("gen_ai.agent.name", text name) ∷ []) in
    if is_foreign event
    then t
    else put event.call_id
        (record {
          span = length t.spans;
          steps = [];
          current_step = none;
          model_stack = [];
          tool_spans = [];
        })
        (push_span (apply_tag setup span) t)

-- onStepStart, once the operation and the number are there.
unfoldable pub start_step :
    Setup → (ℕ → String) → String → ℕ → OperationState → Telemetry → Telemetry
unfolding apply_tag
start_step setup show call_id step state t =
    let label = "step " +++ show step in
    let span =
      new_span ("execute_task " +++ label) internal (some state.span)
        (("gen_ai.operation.name", text "execute_task") ∷ ("gen_ai.task.name", text label) ∷ []) in
    put call_id
      (record state {
        steps = Dict.set step (length t.spans) state.steps;
        current_step = some (length t.spans);
      })
      (push_span (apply_tag setup span) t)

unfoldable pub on_step_start : Setup → (ℕ → String) → String → Option ℕ → Telemetry → Telemetry
unfolding start_step
on_step_start setup show call_id none t = t
on_step_start setup show call_id (some step) t = elim (Dict.get call_id t.ops) [
  | none ↦ t
  | some state ↦ start_step setup show call_id step state t
]

-- The loop over the messages of a call.
unfoldable pub add_messages : List (Option String × Content) → Span → Span
unfolding stringify_content
add_messages [] s = s
add_messages ((role, content) ∷ messages) s = add_messages messages (
    add_event ("gen_ai." +++ or_else role "user" +++ ".message") none (stringify_content content) s)

unfoldable pub capture_prompt : Setup → AisdkModelCallStartEvent → Span → Span
unfolding add_messages stringify_content
capture_prompt setup event s =
    if setup.capture_content
    then add_messages event.messages (
        if is_present event.instructions
        then add_event "gen_ai.system.message" none (stringify_content event.instructions) s
        else s)
    else s

-- The attributes that onLanguageModelCallStart sets, before the tag.
unfoldable pub set_request : AisdkModelCallStartEvent → Span → Span
unfolding set_text set_number
set_request event s = set_number "gen_ai.request.max_tokens" event.max_output_tokens (
    set_number "gen_ai.request.top_p" event.top_p (
      set_number "gen_ai.request.temperature" event.temperature (
        set_text "gen_ai.request.model" event.model_id
          (set_text "gen_ai.provider.name" event.provider s))))

unfoldable pub start_model :
    Setup → AisdkModelCallStartEvent → OperationState → Telemetry → Telemetry
unfolding apply_tag capture_prompt set_request
start_model setup event state t =
    let model = or_else event.model_id "" in
    let span =
      new_span (if is_empty model then "chat" else "chat " +++ model) client
        (some (parent_ctx_for state)) (("gen_ai.operation.name", text "chat") ∷ []) in
    put event.call_id (record state { model_stack = length t.spans ∷ state.model_stack })
      (push_span (capture_prompt setup event (apply_tag setup (set_request event span))) t)

unfoldable pub on_language_model_call_start :
    Setup → AisdkModelCallStartEvent → Telemetry → Telemetry
unfolding start_model
on_language_model_call_start setup event t = elim (Dict.get event.call_id t.ops) [
  | none ↦ t
  | some state ↦ start_model setup event state t
]

unfoldable pub start_tool :
    Setup → AisdkToolStartEvent → String → OperationState → Telemetry → Telemetry
unfolding apply_tag stringify_content
start_tool setup event id state t =
    let name = or_else event.tool_name "tool" in
    let span = apply_tag setup (
      new_span ("execute_tool " +++ name) internal (some (parent_ctx_for state)) (
        ("gen_ai.operation.name", text "execute_tool")
        ∷ ("gen_ai.tool.name", text name)
        ∷ ("gen_ai.tool.call.id", text id)
        ∷ [])) in
    put event.call_id (record state { tool_spans = Dict.set id (length t.spans) state.tool_spans })
      (push_span
        (if setup.capture_content && is_defined event.input
          then add_event "gen_ai.tool.message" none (stringify_content event.input) span
          else span)
        t)

-- onToolExecutionStart.
unfoldable pub on_tool_execution_start : Setup → AisdkToolStartEvent → Telemetry → Telemetry
unfolding start_tool
on_tool_execution_start setup event t = elim (Dict.get event.call_id t.ops) [
  | none ↦ t
  | some state ↦
      if truthy event.tool_call_id
      then start_tool setup event (or_else event.tool_call_id "") state t
      else t
]

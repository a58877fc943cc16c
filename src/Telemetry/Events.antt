-- ===== src/Telemetry/Events.antt =====
-- The events that the AI SDK delivers, in any order, and what they do.
use trace_bloom.Base.{ℕ, String, Option, List, [], ◌∷◌}
use trace_bloom.Telemetry.{Telemetry, Setup}
use trace_bloom.Telemetry.Content.{
  AisdkOperationStartEvent, AisdkModelCallStartEvent, AisdkModelCallEndEvent, AisdkToolStartEvent,
  AisdkToolEndEvent,
}
use trace_bloom.Telemetry.Starts.{
  on_start, on_step_start, on_language_model_call_start, on_tool_execution_start,
}
use trace_bloom.Telemetry.Finishes.{
  on_language_model_call_end, on_tool_execution_end, on_step_end, on_end,
}

-- AISDKTelemetry: one constructor for each handler; a start with the context that is active.
pub data AisdkEvent : Type 0 where
  start : Option ℕ → AisdkOperationStartEvent → AisdkEvent
  step_start step_end : String → Option ℕ → AisdkEvent
  model_start : AisdkModelCallStartEvent → AisdkEvent
  model_end : AisdkModelCallEndEvent → AisdkEvent
  tool_start : AisdkToolStartEvent → AisdkEvent
  tool_end : AisdkToolEndEvent → AisdkEvent
  end_event : String → AisdkEvent

module _ (setup : Setup) (strip : String → String) (show : ℕ → String) where
  unfoldable pub handle : AisdkEvent → Telemetry → Telemetry
  unfolding on_start on_step_start on_language_model_call_start on_tool_execution_start
      on_language_model_call_end on_tool_execution_end on_step_end on_end
  handle (start active event) t = on_start setup strip active event t
  handle (step_start call_id step) t = on_step_start setup show call_id step t
  handle (model_start event) t = on_language_model_call_start setup event t
  handle (model_end event) t = on_language_model_call_end setup event t
  handle (tool_start event) t = on_tool_execution_start setup event t
  handle (tool_end event) t = on_tool_execution_end setup event t
  handle (step_end call_id step) t = on_step_end call_id step t
  handle (end_event call_id) t = on_end call_id t

  -- All of a sequence of events, from nothing.
  unfoldable pub handle_all : List AisdkEvent → Telemetry → Telemetry
  unfolding handle
  handle_all [] t = t
  handle_all (event ∷ events) t = handle_all events (handle event t)

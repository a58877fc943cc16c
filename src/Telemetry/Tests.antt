-- ===== src/Telemetry/Tests.antt =====
-- Runs and instances.
use trace_bloom.Base.{
  ℕ, ◌+◌, ◌≤◌, ◌≡◌, refl, String, true, false, none, some, List, [], ◌∷◌, arith, map, string_eq,
  nat_eq, length,
}
use trace_bloom.Dict
use trace_bloom.Text.{is_empty}
use trace_bloom.Telemetry.{modify_at, Telemetry, Setup, failed}
use trace_bloom.Telemetry.Content.{text, stringify_content, parts, plain, opaque, with_text}
use trace_bloom.Telemetry.Events.{AisdkEvent, start, step_start, tool_start, end_event, handle_all}
use trace_bloom.Telemetry.Wrappers.{
  ChatCompletionRequest, threw, traced_create, record_request, add_request_messages,
}
use trace_bloom.Telemetry.Weights.{ended, held}
use trace_bloom.Telemetry.Ends.{no_telemetry, all_free, handle_all-once, handle_all-ended}

abbrev plain_setup : Setup
plain_setup = record {
  prompt_version = some "v2";
  prompt_name = none;
  capture_content = true;
  pricing = [];
  inherited = λ name. false;
}

abbrev same : String → String
same s = s

abbrev number_text : ℕ → String
number_text n = "n"

-- A run with a step and a tool call that is still open when the operation ends.
abbrev a_run : List AisdkEvent
a_run =
    start none (record { call_id = "c"; operation_id = none; function_id = some "researcher" })
    ∷ step_start "c" (some 0)
    ∷ tool_start (record {
      call_id = "c";
      tool_call_id = some "k";
      tool_name = some "search";
      input = text "q";
    })
    ∷ end_event "c"
    ∷ []

abbrev run_end : Telemetry
run_end = handle_all plain_setup same number_text a_run no_telemetry

-- The tool's span is a child of the step's, and that one of the operation's.
run_parents : map (λ s. s.parent) run_end.spans ≡ none ∷ some 0 ∷ some 1 ∷ []
unfolding handle_all Dict.get Dict.set Dict.delete is_empty modify_at
run_parents = refl

stringify_content_run :
    stringify_content (parts (plain "a" ∷ opaque ∷ with_text "b" ∷ []) "[]") ≡ "a\nb"
unfolding stringify_content is_empty
stringify_content_run = refl

handle_all-once_example : ended 2 run_end + held 2 run_end ≤ 1
handle_all-once_example = handle_all-once plain_setup same number_text a_run 2

handle_all-ended_example : ended 2 run_end ≡ 1
unfolding handle_all all_free Dict.get Dict.set Dict.delete is_empty modify_at
handle_all-ended_example =
    handle_all-ended plain_setup same number_text a_run 2 refl refl (omega arith)

abbrev a_request : ChatCompletionRequest
a_request = record {
  model = "gpt";
  messages = (some "system", text "be brief") ∷ (none, text "hi") ∷ [];
  temperature = none;
  top_p = none;
  max_tokens = none;
}

-- A call that throws: its span has the events of both messages and of the exception, is ended once,
-- and the error reaches the caller.
traced_create-threw :
    let (outcome, span) = traced_create plain_setup (some 3) (λ r. threw "limit") a_request in
    (outcome ≡ threw "limit")
    × (span.ended ≡ 1)
    × (span.status ≡ failed "limit")
    × (span.parent ≡ some 3)
    × (length span.events ≡ 3)
unfolding traced_create record_request add_request_messages is_empty
traced_create-threw = (refl, refl, refl, refl, refl)

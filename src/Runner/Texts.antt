-- ===== src/Runner/Texts.antt =====
-- The texts of a span, from its events.
use trace_bloom.Base.{
  ◌≡◌, refl, ◌∙◌, ap, String, Bool, true, false, List, [], ◌∷◌, ◌++◌, map, keep, elem, string_eq,
  beq_cases, arith, Bool-cases, inl, inr,
}
use mathlib.Core.List.{append_assoc, append-nil}
use trace_bloom.Runner.{Host, SpanEventRow}
use trace_bloom.Runner.Spans.{
  input_events, output_events, event_content, join_lines, SpanText, add_event, add_events,
  reconstruct_io,
}

abbrev pub is_input : SpanEventRow → Bool
is_input event = elem event.name input_events

abbrev pub is_output : SpanEventRow → Bool
is_output event = elem event.name output_events

input_output_apart :
    (name : String) → elem name input_events ≡ true → elem name output_events ≡ false
input_output_apart name h = elim (beq_cases "gen_ai.system.message" name) [
  | inl (e, q) ↦ rw (← q) refl
  | inr (e, n) ↦ elim (beq_cases "gen_ai.user.message" name) [
    | inl (f, q) ↦ rw (← q) refl
    | inr (f, m) ↦ elim (beq_cases "gen_ai.tool.message" name) [
      | inl (g, q) ↦ rw (← q) refl
      | inr (g, l) ↦ absurd (ground arith)
    ]
  ]
]

module _ (h : Host) where
  abbrev pub contents : List SpanEventRow → List String
  contents events = map (λ event. event_content h event.body) events

  add_events_lem :
      (events : List SpanEventRow) (io : SpanText)
      → add_events h io events ≡ record {
        input = io.input ++ contents (keep is_input events);
        output = io.output ++ contents (keep is_output events);
      }
  unfolding add_events add_event
  add_events_lem [] io = ground (arith, append-nil io.input, append-nil io.output)
  add_events_lem (e ∷ events) io = elim (Bool-cases (elem e.name input_events)) [
    | inl i ↦
        rw (i, input_output_apart e.name i)
          (add_events_lem events (record io { input = io.input ++ event_content h e.body ∷ [] })
            ∙ ground (
              arith,
              append_assoc io.input (event_content h e.body ∷ []) (contents (keep is_input events)),
            ))
    | inr i ↦ elim (Bool-cases (elem e.name output_events)) [
      | inl o ↦
          rw (i, o)
            (add_events_lem events (record io { output = io.output ++ event_content h e.body ∷ [] })
              ∙ ground (
                arith,
                append_assoc io.output (event_content h e.body ∷ [])
                    (contents (keep is_output events)),
              ))
      | inr o ↦ rw (i, o) (add_events_lem events io)
    ]
  ]

  -- The input is the contents of the system, user and tool messages, and the output those of the
  -- choices and assistant messages, each in the order of the events and on lines of their own; other
  -- events count for neither.
  pub reconstruct_io_lem :
      (events : List SpanEventRow)
      → reconstruct_io h events ≡ (
        join_lines (contents (keep is_input events)),
        join_lines (contents (keep is_output events)),
      )
  unfolding reconstruct_io
  reconstruct_io_lem events =
      ap (λ (io : SpanText). (join_lines io.input, join_lines io.output))
        (add_events_lem events (record { input = []; output = [] }))

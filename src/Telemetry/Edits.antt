-- ===== src/Telemetry/Edits.antt =====
-- What the handlers do to a span before it ends is no end.
use trace_bloom.Base.{
  ℕ, ◌+◌, ◌≡◌, refl, ap, String, ◌&&◌, ◌||◌, Option, none, some, List, [], ◌∷◌, Bool-cases, inl,
  inr, or_else,
}
use trace_bloom.Json.{Number, truthy}
use trace_bloom.Text.{is_empty}
use trace_bloom.Telemetry.{Span, Setup, tokens, set_attribute, set_text, set_number, apply_tag}
use trace_bloom.Telemetry.Content.{
  Content, is_present, is_defined, AisdkModelCallStartEvent, AisdkModelCallEndEvent,
  AisdkToolEndEvent,
}
use trace_bloom.Telemetry.Starts.{add_messages, capture_prompt, set_request}
use trace_bloom.Telemetry.Finishes.{set_costs, set_finish, finish_model, finish_tool}

pub set_text-ended :
    (key : String) (o : Option String) (s : Span) → (set_text key o s).ended ≡ s.ended
unfolding set_text
set_text-ended key none s = refl
set_text-ended key (some value) s = elim (Bool-cases (truthy (some value))) [
  | inl e ↦ rw e
  | inr e ↦ rw e
]

pub set_number-ended :
    (key : String) (o : Option Number) (s : Span) → (set_number key o s).ended ≡ s.ended
unfolding set_number
set_number-ended key none s = refl
set_number-ended key (some n) s = refl

module _ (setup : Setup) where
  pub apply_tag-ended : (s : Span) → (apply_tag setup s).ended ≡ s.ended
  unfolding apply_tag
  apply_tag-ended s = simp set_text-ended

  add_messages-ended :
      (messages : List (Option String × Content)) (s : Span)
      → (add_messages messages s).ended ≡ s.ended
  unfolding add_messages
  add_messages-ended [] s = refl
  add_messages-ended ((role, content) ∷ messages) s = add_messages-ended messages _

  pub capture_prompt-ended :
      (event : AisdkModelCallStartEvent) (s : Span) → (capture_prompt setup event s).ended ≡ s.ended
  unfolding capture_prompt
  capture_prompt-ended event s = elim (Bool-cases setup.capture_content) [
    | inr e ↦ rw e
    | inl e ↦ elim (Bool-cases (is_present event.instructions)) [
      | inl f ↦ rw (e, f) (add_messages-ended event.messages _)
      | inr f ↦ rw (e, f) (add_messages-ended event.messages s)
    ]
  ]

  pub set_request-ended :
      (event : AisdkModelCallStartEvent) (s : Span) → (set_request event s).ended ≡ s.ended
  unfolding set_request
  set_request-ended event s = simp (set_number-ended, set_text-ended)

  set_costs-ended :
      (model : String) (input output : ℕ) (s : Span)
      → (set_costs setup model input output s).ended ≡ s.ended
  unfolding set_costs
  set_costs-ended model input output s = elim (Bool-cases (is_empty model)) [
    | inl e ↦ rw e
    | inr e ↦ rw e
  ]

  set_finish-ended : (reason : Option String) (s : Span) → (set_finish reason s).ended ≡ s.ended
  unfolding set_finish
  set_finish-ended reason s = elim (Bool-cases (truthy reason)) [ inl e ↦ rw e | inr e ↦ rw e ]

  described_ended :
      (event : AisdkModelCallEndEvent) (s : Span)
      → (set_costs setup
          (or_else event.model_id "")
          (or_else event.input_tokens 0)
          (or_else event.output_tokens 0)
          (set_attribute "gen_ai.usage.output_tokens" (tokens (or_else event.output_tokens 0)) (
            set_attribute "gen_ai.usage.input_tokens" (tokens (or_else event.input_tokens 0)) (
              set_finish event.finish_reason (
                set_text "gen_ai.response.id" event.response_id
                  (set_text "gen_ai.response.model" event.model_id s)))))).ended
        ≡ s.ended
  described_ended event s = simp (set_costs-ended, set_finish-ended, set_text-ended)

  pub finish_model-ended :
      (event : AisdkModelCallEndEvent) (s : Span) → (finish_model setup event s).ended ≡ s.ended + 1
  unfolding finish_model
  finish_model-ended event s =
      elim (Bool-cases (setup.capture_content && is_present event.content)) [
        | inl e ↦ rw e (ap (λ (n : ℕ). n + 1) (described_ended event s))
        | inr e ↦ rw e (ap (λ (n : ℕ). n + 1) (described_ended event s))
      ]

  pub finish_tool-ended :
      (event : AisdkToolEndEvent) (s : Span) → (finish_tool setup event s).ended ≡ s.ended + 1
  unfolding finish_tool
  finish_tool-ended event s = elim (Bool-cases (event.is_tool_error || is_defined event.error)) [
    | inl e ↦ rw e refl
    | inr e ↦ elim (Bool-cases (setup.capture_content && is_defined event.output)) [
      | inl f ↦ rw (e, f) refl
      | inr f ↦ rw (e, f) refl
    ]
  ]

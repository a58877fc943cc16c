-- ===== src/Telemetry/Transparent.antt =====
-- The wrappers give back what the call gives, and end their span.
use trace_bloom.Base.{
  ℕ, ◌+◌, ◌≡◌, refl, ◌∙◌, ap, String, Option, List, [], ◌∷◌, Bool-cases, inl, inr,
}
use trace_bloom.Text.{◌+++◌}
use trace_bloom.Telemetry.{
  Span, SpanStatus, fine, failed, Setup, new_span, client, internal, AttributeValue,
}
use trace_bloom.Dict.{Dict}
use trace_bloom.Telemetry.Content.{Content}
use trace_bloom.Telemetry.Edits.{set_text-ended, set_number-ended, apply_tag-ended}
use trace_bloom.Telemetry.Wrappers.{
  ChatCompletionRequest, ChatCompletionResponse, ChatCompletionChoice, Attempt, returned, threw,
  add_request_messages, record_request, set_texts, add_choices, record_response, finish_create,
  traced_create, finish_call, with_gen_ai_span,
}

-- The status that mirrors the outcome of a call.
abbrev pub status_of {ℓ} : {T : Type ℓ} → Attempt T → SpanStatus
status_of (returned value) = fine
status_of (threw message) = failed message

module _ (setup : Setup) (params : ChatCompletionRequest) where
  add_request_messages-ended :
      (messages : List (Option String × Content)) (s : Span)
      → (add_request_messages messages s).ended ≡ s.ended
  unfolding add_request_messages
  add_request_messages-ended [] s = refl
  add_request_messages-ended ((role, content) ∷ messages) s = add_request_messages-ended messages _

  record_request-ended : (s : Span) → (record_request setup params s).ended ≡ s.ended
  unfolding record_request
  record_request-ended s = elim (Bool-cases setup.capture_content) [
    | inl e ↦
        rw e
          (add_request_messages-ended params.messages _ ∙ simp (set_number-ended, apply_tag-ended))
    | inr e ↦ rw e (simp (set_number-ended, apply_tag-ended))
  ]

  set_texts-ended :
      (key : String) (ts : List String) (s : Span) → (set_texts key ts s).ended ≡ s.ended
  unfolding set_texts
  set_texts-ended key [] s = refl
  set_texts-ended key (t ∷ ts) s = refl

  add_choices-ended :
      (choices : List ChatCompletionChoice) (s : Span) → (add_choices choices s).ended ≡ s.ended
  unfolding add_choices
  add_choices-ended [] s = refl
  add_choices-ended (choice ∷ choices) s = add_choices-ended choices _

  record_response-ended :
      (response : ChatCompletionResponse) (s : Span)
      → (record_response setup params response s).ended ≡ s.ended
  unfolding record_response
  record_response-ended response s = elim (Bool-cases setup.capture_content) [
    | inl e ↦ rw e (add_choices-ended response.choices _ ∙ simp (set_texts-ended, set_text-ended))
    | inr e ↦ rw e (simp (set_texts-ended, set_text-ended))
  ]

  finish_create-ended :
      (s : Span) (outcome : Attempt ChatCompletionResponse)
      → ((finish_create setup params s outcome).ended ≡ s.ended + 1)
        × ((finish_create setup params s outcome).status ≡ status_of outcome)
  finish_create-ended s (returned response) =
      (ap (λ (n : ℕ). n + 1) (record_response-ended response s), refl)
  finish_create-ended s (threw message) = (refl, refl)

  -- The traced function returns the response, or throws the error, of the one it wraps, unchanged; on
  -- either path its span is ended, exactly once, with a status that mirrors the outcome.
  pub traced_create-ended :
      (active : Option ℕ) (create : ChatCompletionRequest → Attempt ChatCompletionResponse)
      → let (outcome, span) = traced_create setup active create params in
        (outcome ≡ create params) × (span.ended ≡ 1) × (span.status ≡ status_of (create params))
  unfolding traced_create
  traced_create-ended active create =
      let fresh = new_span ("chat " +++ params.model) client active [] in
      let (once, mirrored) =
        finish_create-ended (record_request setup params fresh) (create params) in
      (refl, once ∙ ap (λ (n : ℕ). n + 1) (record_request-ended fresh), mirrored)

finish_call-ended {ℓ} :
    {T : Type ℓ} (s : Span) (outcome : Attempt T)
    → ((finish_call s outcome).ended ≡ s.ended + 1)
      × ((finish_call s outcome).status ≡ status_of outcome)
finish_call-ended s (returned value) = (refl, refl)
finish_call-ended s (threw message) = (refl, refl)

-- A function that runs inside a span gives what it gives alone for that span, and on either path the
-- span is ended once, with a status that mirrors the outcome.
pub with_gen_ai_span-ended {ℓ} :
    {T : Type ℓ} (active : Option ℕ) (name : String) (attributes : Dict String AttributeValue)
    (fn : Span → Attempt T)
    → let own = fn (new_span name internal active attributes) in
      let (outcome, span) = with_gen_ai_span active name attributes fn in
      (outcome ≡ own) × (span.ended ≡ 1) × (span.status ≡ status_of own)
unfolding with_gen_ai_span
with_gen_ai_span-ended active name attributes fn =
    let (once, mirrored) =
      finish_call-ended (new_span name internal active attributes)
        (fn (new_span name internal active attributes)) in
    (refl, once, mirrored)

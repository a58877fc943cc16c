-- ===== src/Telemetry/Handled.antt =====
-- The effect of each handler that starts a span or ends one.
use trace_bloom.Base.{
  ℕ, ◌≡◌, refl, ◌∙◌, String, Bool, true, false, not, Option, none, some, List, [], ◌∷◌, arith,
  if◌then◌else◌, length, Bool-cases, Option-cases, inl, inr, string_eq, nat_eq, is_some, or_else,
}
use trace_bloom.Dict
use trace_bloom.Dict.{Dict, values}
use trace_bloom.Json.{truthy}
use trace_bloom.Telemetry.{Span, OperationState, Telemetry, Setup, add_event}
use trace_bloom.Telemetry.Content.{
  AisdkOperationStartEvent, AisdkModelCallStartEvent, AisdkModelCallEndEvent, AisdkToolStartEvent,
  AisdkToolEndEvent,
}
use trace_bloom.Telemetry.Starts.{
  is_foreign, on_start, start_step, on_step_start, start_model, on_language_model_call_start,
  start_tool, on_tool_execution_start,
}
use trace_bloom.Telemetry.Finishes.{
  end_model, on_language_model_call_end, end_tool, on_tool_execution_end, end_step, on_step_end,
  finish_model, finish_tool,
}
use trace_bloom.Telemetry.Edits.{
  apply_tag-ended, capture_prompt-ended, set_request-ended, finish_model-ended, finish_tool-ended,
}
use trace_bloom.Telemetry.Weights.{
  weight_of, total-nil, total-set, total-delete, is_span, holds-cons, holds-nil, op_holds,
}
use trace_bloom.Telemetry.Effects.{AtMostOnce, Effect, same-Effect, push-Effect, end-Effect}

-- A new span or none, and no hold is dropped where `free` is true.
abbrev pub Handled : Telemetry → Telemetry → Bool → Type 0
Handled t u free =
    (new : Bool) × (lost : ℕ → ℕ) × Effect t u new lost × ((i : ℕ) → free ≡ true → lost i ≡ 0)

pub same-Handled : (t : Telemetry) (free : Bool) → Handled t t free
same-Handled t free = (false, (λ i. 0), same-Effect t, λ i h. refl)

-- No operation of this id is running; no step of this number, or tool call of this id, is open.
abbrev pub no_call : String → Telemetry → Bool
no_call call_id t = not (is_some (Dict.get call_id t.ops))

abbrev pub no_step : String → ℕ → Telemetry → Bool
no_step call_id step t = elim (Dict.get call_id t.ops) [
  | none ↦ true
  | some state ↦ not (is_some (Dict.get step state.steps))
]

abbrev pub no_tool : String → String → Telemetry → Bool
no_tool call_id id t = elim (Dict.get call_id t.ops) [
  | none ↦ true
  | some state ↦ not (is_some (Dict.get id state.tool_spans))
]

lost_none : {V : Type 0} (w : V → ℕ) (o : Option V) → not (is_some o) ≡ true → weight_of w o ≡ 0
lost_none w none h = refl
lost_none w (some v) h = absurd (cc)

module _ (setup : Setup) (strip : String → String) (show : ℕ → String) where
  pub on_start-Handled :
      (active : Option ℕ) (event : AisdkOperationStartEvent) (t : Telemetry)
      → Handled t (on_start setup strip active event t) (no_call event.call_id t)
  unfolding on_start
  on_start-Handled active event t = elim (Bool-cases (is_foreign event)) [
    | inl e ↦ rw e (same-Handled t (no_call event.call_id t))
    | inr e ↦ rw e (
      true,
      (λ i. weight_of (op_holds i) (Dict.get event.call_id t.ops)),
      push-Effect event.call_id _ _ _ t (apply_tag-ended setup _) (λ i.
          omega (arith, holds-nil i, total-nil String ℕ (is_span i), total-nil ℕ ℕ (is_span i))),
      λ i h. lost_none (op_holds i) (Dict.get event.call_id t.ops) h,
    )
  ]

  pub on_step_start-Handled :
      (call_id : String) (step : ℕ) (t : Telemetry)
      → Handled t (on_step_start setup show call_id (some step) t) (no_step call_id step t)
  unfolding on_step_start start_step
  on_step_start-Handled call_id step t = elim (Option-cases (Dict.get call_id t.ops)) [
    | inl e ↦ rw (e, on_step_start) (same-Handled t (no_step call_id step t))
    | inr (state, e) ↦
        rw (e, on_step_start)
          (
            true,
            (λ i. weight_of (is_span i) (Dict.get step state.steps)),
            push-Effect call_id _ _ _ t (apply_tag-ended setup _) (λ i.
                rw e (omega (arith, total-set (is_span i) step (length t.spans) state.steps))),
            λ i h. lost_none (is_span i) (Dict.get step state.steps) (rw (e, no_step) at h),
          )
  ]

  pub on_model_start-Handled :
      (event : AisdkModelCallStartEvent) (t : Telemetry)
      → Handled t (on_language_model_call_start setup event t) true
  unfolding on_language_model_call_start start_model
  on_model_start-Handled event t = elim (Option-cases (Dict.get event.call_id t.ops)) [
    | inl e ↦ rw (e, on_language_model_call_start) (same-Handled t true)
    | inr (state, e) ↦
        rw (e, on_language_model_call_start)
          (
            true,
            (λ i. 0),
            push-Effect event.call_id _ _ _ t
                (capture_prompt-ended setup event _
                  ∙ apply_tag-ended setup _
                  ∙ set_request-ended setup event _)
                (λ i. rw e (omega (arith, holds-cons i (length t.spans) state.model_stack))),
            λ i h. refl,
          )
  ]

  tool_message-ended :
      (b : Bool) (s : Span) (content : String)
      → (if b then add_event "gen_ai.tool.message" none content s else s).ended ≡ s.ended
  tool_message-ended true s content = refl
  tool_message-ended false s content = refl

  pub on_tool_start-Handled :
      (event : AisdkToolStartEvent) (t : Telemetry)
      → Handled t
          (on_tool_execution_start setup event t)
          (no_tool event.call_id (or_else event.tool_call_id "") t)
  unfolding on_tool_execution_start start_tool
  on_tool_start-Handled event t =
      let id = or_else event.tool_call_id "" in
      elim (Option-cases (Dict.get event.call_id t.ops)) [
        | inl e ↦ rw (e, on_tool_execution_start) (same-Handled t (no_tool event.call_id id t))
        | inr (state, e) ↦ elim (Bool-cases (truthy event.tool_call_id)) [
          | inr f ↦ rw (e, f, on_tool_execution_start) (same-Handled t (no_tool event.call_id id t))
          | inl f ↦
              rw (e, f, on_tool_execution_start, no_tool)
                (
                  true,
                  (λ i. weight_of (is_span i) (Dict.get id state.tool_spans)),
                  push-Effect event.call_id _ _ _ t
                      (tool_message-ended _ _ _ ∙ apply_tag-ended setup _)
                      (λ i. rw e (
                        omega (arith, total-set (is_span i) id (length t.spans) state.tool_spans))),
                  λ i h. lost_none (is_span i) (Dict.get id state.tool_spans) h,
                )
        ]
      ]

  module _ (t : Telemetry) (once : AtMostOnce t) where
    ends_Handled : {u : Telemetry} → Effect t u false (λ i. 0) → Handled t u true
    ends_Handled e = (false, (λ i. 0), e, λ i h. refl)

    end_model-Handled :
        (event : AisdkModelCallEndEvent) (state : OperationState) (stack : List ℕ)
        → Dict.get event.call_id t.ops ≡ some state
        → state.model_stack ≡ stack
        → Handled t (end_model setup event state stack t) true
    unfolding end_model
    end_model-Handled event state [] found same = same-Handled t true
    end_model-Handled event state (span ∷ stack) found same = ends_Handled (
        end-Effect event.call_id state _ span (finish_model setup event) t once found
          (finish_model-ended setup event) (λ i. rw same (omega (arith, holds-cons i span stack))))

    pub on_model_end-Handled :
        (event : AisdkModelCallEndEvent) → Handled t (on_language_model_call_end setup event t) true
    unfolding on_language_model_call_end
    on_model_end-Handled event = elim (Option-cases (Dict.get event.call_id t.ops)) [
      | inl e ↦ rw (e, on_language_model_call_end) (same-Handled t true)
      | inr (state, e) ↦
          rw (e, on_language_model_call_end)
            (end_model-Handled event state state.model_stack e refl)
    ]

    pub on_tool_end-Handled :
        (event : AisdkToolEndEvent) → Handled t (on_tool_execution_end setup event t) true
    unfolding on_tool_execution_end end_tool
    on_tool_end-Handled event =
        let id = or_else event.tool_call_id "" in
        elim (Option-cases (Dict.get event.call_id t.ops)) [
          | inl e ↦ rw (e, on_tool_execution_end) (same-Handled t true)
          | inr (state, e) ↦ elim (Bool-cases (truthy event.tool_call_id)) [
            | inr f ↦ rw (e, f, on_tool_execution_end) (same-Handled t true)
            | inl f ↦ elim (Option-cases (Dict.get id state.tool_spans)) [
              | inl g ↦ rw (e, f, g, on_tool_execution_end, end_tool) (same-Handled t true)
              | inr (span, g) ↦
                  rw (e, f, g, on_tool_execution_end, end_tool)
                    (ends_Handled (
                      end-Effect event.call_id state _ span (finish_tool setup event) t once e
                        (finish_tool-ended setup event)
                        (λ i.
                          let d = rw g at (total-delete (is_span i) id state.tool_spans) in
                          omega arith)))
            ]
          ]
        ]

    pub on_step_end-Handled :
        (call_id : String) (step : ℕ) → Handled t (on_step_end call_id (some step) t) true
    unfolding on_step_end end_step
    on_step_end-Handled call_id step = elim (Option-cases (Dict.get call_id t.ops)) [
      | inl e ↦ rw (e, on_step_end) (same-Handled t true)
      | inr (state, e) ↦ elim (Option-cases (Dict.get step state.steps)) [
        | inl g ↦ rw (e, g, on_step_end, end_step) (same-Handled t true)
        | inr (span, g) ↦
            rw (e, g, on_step_end, end_step)
              (ends_Handled (
                end-Effect call_id state _ span _ t once e (λ s. refl)
                  (λ i.
                    let d = rw g at (total-delete (is_span i) step state.steps) in omega arith)))
      ]
    ]

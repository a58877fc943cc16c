-- ===== src/Telemetry/Ends.antt =====
-- Every span that a sequence of events starts is ended once.
use trace_bloom.Base.{
  ℕ, ◌+◌, ◌≤◌, ◌<◌, ◌≡◌, refl, ◌∙◌, String, Bool, true, false, ◌&&◌, none, some, List, [], ◌∷◌,
  ◌++◌, arith, if◌then◌else◌, ltb, length, get_elem?, Bool-cases, Option-cases, inl, inr, string_eq,
  nat_eq, or_else,
}
use trace_bloom.Dict
use trace_bloom.Dict.{Dict, values}
use trace_bloom.Telemetry.{Span, OperationState, Telemetry, Setup, modify_at, end_span}
use trace_bloom.Telemetry.Starts.{on_step_start}
use trace_bloom.Telemetry.Finishes.{on_step_end, end_all, open_spans_of, on_end}
use trace_bloom.Telemetry.Events.{
  AisdkEvent, start, step_start, step_end, model_start, model_end, tool_start, tool_end, end_event,
  handle, handle_all,
}
use trace_bloom.Telemetry.Weights.{
  total-nil, total-delete, is_span, holds, holds-cons, holds-nil, holds-append, holds-values,
  op_holds, held, ends_of, ended, ends-modify_at, length-modify_at,
}
use trace_bloom.Telemetry.{set_status, fine}
use trace_bloom.Telemetry.Effects.{AtMostOnce, Effect}
use trace_bloom.Telemetry.Handled.{
  Handled, same-Handled, no_call, no_step, no_tool, on_start-Handled, on_step_start-Handled,
  on_model_start-Handled, on_tool_start-Handled, on_model_end-Handled, on_tool_end-Handled,
  on_step_end-Handled,
}

ends-end_all :
    (i : ℕ) (js : List ℕ) (spans : List Span)
    → ends_of (get_elem? (end_all js spans) i)
      ≡ ends_of (get_elem? spans i) + (if ltb i (length spans) then holds i js else 0)
unfolding end_all
ends-end_all i [] spans = ground (arith, holds-nil i)
ends-end_all i (j ∷ js) spans =
    let later = ends-end_all i js (modify_at j end_span spans) in
    let one = ends-modify_at i j 1 end_span spans (λ s. refl) in
    let same = length-modify_at j end_span spans in
    elim (Bool-cases (ltb i (length spans))) [
      | inl q ↦
          let l = rw (same, q) at later in
          let o = rw q at one in rw q (omega (arith, holds-cons i j js))
      | inr q ↦ let l = rw (same, q) at later in let o = rw q at one in rw q (omega arith)
    ]

length-end_all : (js : List ℕ) (spans : List Span) → length (end_all js spans) ≡ length spans
unfolding end_all
length-end_all [] spans = refl
length-end_all (j ∷ js) spans =
    length-end_all js (modify_at j end_span spans) ∙ length-modify_at j end_span spans

holds-open_spans_of :
    (i : ℕ) (state : OperationState)
    → holds i (open_spans_of state) + is_span i state.span ≡ op_holds i state
holds-open_spans_of i state = omega (
  arith,
  holds-append i state.model_stack (values state.tool_spans ++ values state.steps),
  holds-append i (values state.tool_spans) (values state.steps),
  holds-values i state.tool_spans,
  holds-values i state.steps,
)

on_end-Handled :
    (call_id : String) (t : Telemetry) → AtMostOnce t → Handled t (on_end call_id t) true
unfolding on_end
on_end-Handled call_id t once = elim (Option-cases (Dict.get call_id t.ops)) [
  | inl e ↦ rw (e, on_end) (same-Handled t true)
  | inr (state, e) ↦
      rw (e, on_end)
        (
          false,
          (λ i. 0),
          record {
            counted =
                length-modify_at state.span _ (end_all (open_spans_of state) t.spans)
                ∙ length-end_all (open_spans_of state) t.spans;
            balance = λ i.
                let all = ends-end_all i (open_spans_of state) t.spans in
                let last =
                  ends-modify_at i state.span 1 (λ s. end_span (set_status fine s))
                    (end_all (open_spans_of state) t.spans) (λ s. refl) in
                let gone = rw e at (total-delete (op_holds i) call_id t.ops) in
                let parts = holds-open_spans_of i state in
                let o = once i in
                let same = length-end_all (open_spans_of state) t.spans in
                elim (Bool-cases (ltb i (length t.spans))) [
                  | inl q ↦ let a = rw q at all in let l = rw (same, q) at last in omega arith
                  | inr q ↦
                      let a = rw q at all in
                      let l = rw (same, q) at last in let b = rw q at o in omega arith
                ];
          },
          λ i h. refl,
        )
]

-- The event opens nothing under an id that is in use.
abbrev pub is_free : AisdkEvent → Telemetry → Bool
is_free (start active event) t = no_call event.call_id t
is_free (step_start call_id none) t = true
is_free (step_start call_id (some step)) t = no_step call_id step t
is_free (tool_start event) t = no_tool event.call_id (or_else event.tool_call_id "") t
is_free (model_start event) t = true
is_free (model_end event) t = true
is_free (tool_end event) t = true
is_free (step_end call_id step) t = true
is_free (end_event call_id) t = true

Effect-AtMostOnce :
    (t u : Telemetry) (new : Bool) (lost : ℕ → ℕ)
    → Effect t u new lost
    → AtMostOnce t
    → AtMostOnce u
Effect-AtMostOnce t u true lost e once i =
    let b = e.balance i in let o = once i in let c = e.counted in ground arith
Effect-AtMostOnce t u false lost e once i =
    let b = e.balance i in let o = once i in let c = e.counted in rw c (omega arith)

-- Each span that was started is held or ended, and once.
abbrev pub ExactlyOnce : Telemetry → Type 0
ExactlyOnce t = (i : ℕ) → ended i t + held i t ≡ (if ltb i (length t.spans) then 1 else 0)

Effect-ExactlyOnce :
    (t u : Telemetry) (new : Bool) (lost : ℕ → ℕ)
    → Effect t u new lost
    → ((i : ℕ) → lost i ≡ 0)
    → ExactlyOnce t
    → ExactlyOnce u
Effect-ExactlyOnce t u true lost e kept once i =
    let b = e.balance i in let o = once i in let c = e.counted in let l = kept i in ground arith
Effect-ExactlyOnce t u false lost e kept once i =
    let b = e.balance i in
    let o = once i in let c = e.counted in let l = kept i in rw c (omega arith)

abbrev pub no_telemetry : Telemetry
no_telemetry = record { spans = []; ops = [] }

module _ (setup : Setup) (strip : String → String) (show : ℕ → String) where
  handle-Handled :
      (event : AisdkEvent) (t : Telemetry)
      → AtMostOnce t
      → Handled t (handle setup strip show event t) (is_free event t)
  unfolding handle on_step_start on_step_end
  handle-Handled (start active event) t once = on_start-Handled setup strip show active event t
  handle-Handled (step_start call_id none) t once = same-Handled t true
  handle-Handled (step_start call_id (some step)) t once =
      on_step_start-Handled setup strip show call_id step t
  handle-Handled (tool_start event) t once = on_tool_start-Handled setup strip show event t
  handle-Handled (model_start event) t once = on_model_start-Handled setup strip show event t
  handle-Handled (model_end event) t once = on_model_end-Handled setup strip show t once event
  handle-Handled (tool_end event) t once = on_tool_end-Handled setup strip show t once event
  handle-Handled (step_end call_id none) t once = same-Handled t true
  handle-Handled (step_end call_id (some step)) t once =
      on_step_end-Handled setup strip show t once call_id step
  handle-Handled (end_event call_id) t once = on_end-Handled call_id t once

  -- No event of the sequence opens an operation, a step or a tool call under an id that is in use.
  unfoldable pub all_free : List AisdkEvent → Telemetry → Bool
  unfolding handle
  all_free [] t = true
  all_free (event ∷ events) t = is_free event t && all_free events (handle setup strip show event t)

  AtMostOnce-ExactlyOnce : (t : Telemetry) → ExactlyOnce t → AtMostOnce t
  AtMostOnce-ExactlyOnce t once i = omega (arith, once i)

  handle_all-ExactlyOnce :
      (events : List AisdkEvent) (t : Telemetry)
      → ExactlyOnce t
      → all_free events t ≡ true
      → ExactlyOnce (handle_all setup strip show events t)
  unfolding handle_all all_free
  handle_all-ExactlyOnce [] t once free = once
  handle_all-ExactlyOnce (event ∷ events) t once free =
      let (new, lost, effect, kept) = handle-Handled event t (AtMostOnce-ExactlyOnce t once) in
      let (here, rest) =
        both (is_free event t) (all_free events (handle setup strip show event t)) free in
      handle_all-ExactlyOnce events (handle setup strip show event t)
        (Effect-ExactlyOnce t (handle setup strip show event t) new lost effect (λ i. kept i here)
          once)
        rest
    where
      both : (a b : Bool) → (a && b) ≡ true → (a ≡ true) × (b ≡ true)
      both true b h = (refl, h)
      both false b h = absurd (cc)

  handle_all-AtMostOnce :
      (events : List AisdkEvent) (t : Telemetry)
      → AtMostOnce t
      → AtMostOnce (handle_all setup strip show events t)
  unfolding handle_all
  handle_all-AtMostOnce [] t once = once
  handle_all-AtMostOnce (event ∷ events) t once =
      let (new, lost, effect, kept) = handle-Handled event t once in
      handle_all-AtMostOnce events (handle setup strip show event t)
        (Effect-AtMostOnce t (handle setup strip show event t) new lost effect once)

  -- Whatever events arrive, in whatever order, and also where ids are used again while they are in
  -- use: no span is ended twice, and none that has ended is still held by an operation.
  pub handle_all-once :
      (events : List AisdkEvent) (i : ℕ)
      → let t = handle_all setup strip show events no_telemetry in ended i t + held i t ≤ 1
  handle_all-once events i =
      let once =
        handle_all-AtMostOnce events no_telemetry
          (λ j. omega (arith, total-nil String OperationState (op_holds j))) i in
      ground arith

  -- Where no event opens an operation, a step or a tool call under an id that is in use: once every
  -- operation has ended, every span that was started has been ended, exactly once.
  pub handle_all-ended :
      (events : List AisdkEvent) (i : ℕ)
      → let t = handle_all setup strip show events no_telemetry in
        all_free events no_telemetry ≡ true → t.ops ≡ [] → i < length t.spans → ended i t ≡ 1
  handle_all-ended events i free over started =
      let t = handle_all setup strip show events no_telemetry in
      let once =
        handle_all-ExactlyOnce events no_telemetry
          (λ j. ground (arith, total-nil String OperationState (op_holds j))) free i in
      let none_held : held i t ≡ 0 = rw over (total-nil String OperationState (op_holds i)) in
      ground arith

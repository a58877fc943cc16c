-- ===== src/Telemetry/Effects.antt =====
-- What each handler does to the holds and the ends of the spans.
use trace_bloom.Base.{
  ℕ, suc, ◌+◌, ◌≤◌, ◌≡◌, refl, String, Bool, true, false, some, [], ◌∷◌, arith, if◌then◌else◌, ltb,
  length, length-append, Bool-cases, inl, inr, string_eq, nat_eq,
}
use trace_bloom.Dict
use trace_bloom.Dict.{Dict, values}
use trace_bloom.Telemetry.{Span, OperationState, Telemetry}
use trace_bloom.Telemetry.Starts.{put, push_span, change_span}
use trace_bloom.Telemetry.Weights.{
  weight_of, total-set, is_span, op_holds, held, ended, ends-modify_at, length-modify_at,
  ends-append_single,
}

-- Each span is held by the operations and ended at most once, together.
abbrev pub AtMostOnce : Telemetry → Type 0
AtMostOnce t = (i : ℕ) → ended i t + held i t ≤ (if ltb i (length t.spans) then 1 else 0)

-- What a handler does to the spans: it starts one or none; `lost` counts the holds that it drops
-- without an end.
pub record Effect (t u : Telemetry) (new : Bool) (lost : ℕ → ℕ) : Type 0 where
  pub counted : length u.spans ≡ (if new then suc (length t.spans) else length t.spans)
  pub balance :
      (i : ℕ)
      → ended i u + held i u + lost i
        ≡ ended i t + held i t + (if new then is_span i (length t.spans) else 0)

pub same-Effect : (t : Telemetry) → Effect t t false (λ i. 0)
same-Effect t = record { counted = refl; balance = λ i. omega arith }

-- A new state of an operation.
held-put :
    (i : ℕ) (call_id : String) (state : OperationState) (t : Telemetry)
    → held i (put call_id state t) + weight_of (op_holds i) (Dict.get call_id t.ops)
      ≡ held i t + op_holds i state
held-put i call_id state t = total-set (op_holds i) call_id state t.ops

-- A span is pushed, and its number stored in an operation.
pub push-Effect :
    (call_id : String) (state : OperationState) (s : Span) (lost : ℕ → ℕ) (t : Telemetry)
    → s.ended ≡ 0
    → ((i : ℕ)
        → op_holds i state + lost i
          ≡ weight_of (op_holds i) (Dict.get call_id t.ops) + is_span i (length t.spans))
    → Effect t (put call_id state (push_span s t)) true lost
push-Effect call_id state s lost t new more = record {
  counted = omega (arith, length-append t.spans (s ∷ []));
  balance =
      λ i. omega (arith, held-put i call_id state t, ends-append_single i s t.spans new, more i);
}

-- A span that an operation holds is ended, and let go.
pub end-Effect :
    (call_id : String) (state next : OperationState) (j : ℕ) (f : Span → Span) (t : Telemetry)
    → AtMostOnce t
    → Dict.get call_id t.ops ≡ some state
    → ((s : Span) → (f s).ended ≡ s.ended + 1)
    → ((i : ℕ) → op_holds i next + is_span i j ≡ op_holds i state)
    → Effect t (change_span j f (put call_id next t)) false (λ i. 0)
end-Effect call_id state next j f t once found ends less = record {
  counted = length-modify_at j f t.spans;
  balance = λ i.
      let p : held i (put call_id next t) + op_holds i state ≡ held i t + op_holds i next =
        rw found at (held-put i call_id next t) in
      let e = ends-modify_at i j 1 f t.spans ends in
      let o = once i in
      let l = less i in
      elim (Bool-cases (ltb i (length t.spans))) [
        | inl q ↦ let e' = rw q at e in omega arith
        | inr q ↦ let e' = rw q at e in let o' = rw q at o in omega arith
      ];
}

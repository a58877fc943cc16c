-- ===== src/Telemetry/Weights.antt =====
-- How often the operations hold a span, and how often it has ended.
use trace_bloom.Base.{
  ℕ, zero, suc, ◌+◌, ◌≡◌, refl, ◌∙◌, Option, none, some, List, [], ◌∷◌, ◌++◌, arith, Eq, ◌==◌,
  if◌then◌else◌, nat_beq, ltb, length, get_elem?, Bool-cases, inl, inr, string_eq, nat_eq,
}
use trace_bloom.Dict
use trace_bloom.Dict.{Dict, values}
use trace_bloom.Telemetry.{Span, OperationState, Telemetry, modify_at}

abbrev pub weight_of : {V : Type 0} → (V → ℕ) → Option V → ℕ
weight_of w none = 0
weight_of w (some v) = w v

pub total : {K V : Type 0} → (V → ℕ) → Dict K V → ℕ
total w [] = 0
total w ((k, v) ∷ m) = w v + total w m

pub total-nil : (K V : Type 0) (w : V → ℕ) → total {K = K} w [] ≡ 0
unfolding total
total-nil K V w = refl

module _ {K V : Type 0} ⦃e : Eq K⦄ (w : V → ℕ) where
  pub total-set :
      (k : K) (v : V) (m : Dict K V)
      → total w (Dict.set k v m) + weight_of w (Dict.get k m) ≡ total w m + w v
  unfolding total Dict.set Dict.get
  total-set k v [] = omega arith
  total-set k v ((j, u) ∷ m) = elim (Bool-cases (j == k)) [
    | inl q ↦ rw q (omega arith)
    | inr q ↦ rw q (omega (arith, total-set k v m))
  ]

  pub total-delete :
      (k : K) (m : Dict K V) → total w (Dict.delete k m) + weight_of w (Dict.get k m) ≡ total w m
  unfolding total Dict.delete Dict.get
  total-delete k [] = omega arith
  total-delete k ((j, u) ∷ m) = elim (Bool-cases (j == k)) [
    | inl q ↦ rw q (omega arith)
    | inr q ↦ rw q (omega (arith, total-delete k m))
  ]

abbrev pub is_span : ℕ → ℕ → ℕ
is_span i j = if nat_beq j i then 1 else 0

pub holds : ℕ → List ℕ → ℕ
holds i [] = 0
holds i (j ∷ js) = is_span i j + holds i js

pub holds-cons : (i j : ℕ) (js : List ℕ) → holds i (j ∷ js) ≡ is_span i j + holds i js
unfolding holds
holds-cons i j js = refl

pub holds-nil : (i : ℕ) → holds i [] ≡ 0
unfolding holds
holds-nil i = refl

pub holds-append : (i : ℕ) (xs ys : List ℕ) → holds i (xs ++ ys) ≡ holds i xs + holds i ys
unfolding holds
holds-append i [] ys = omega arith
holds-append i (x ∷ xs) ys = omega (arith, holds-append i xs ys)

pub holds-values :
    {K : Type 0} ⦃e : Eq K⦄ (i : ℕ) (m : Dict K ℕ) → holds i (values m) ≡ total (is_span i) m
unfolding holds total
holds-values i [] = refl
holds-values i ((k, v) ∷ m) = omega (arith, holds-values i m)

-- How often an operation holds span i.
abbrev pub op_holds : ℕ → OperationState → ℕ
op_holds i o =
    is_span i o.span
    + holds i o.model_stack
    + total (is_span i) o.tool_spans
    + total (is_span i) o.steps

abbrev pub held : ℕ → Telemetry → ℕ
held i t = total (op_holds i) t.ops

abbrev pub ends_of : Option Span → ℕ
ends_of none = 0
ends_of (some s) = s.ended

abbrev pub ended : ℕ → Telemetry → ℕ
ended i t = ends_of (get_elem? t.spans i)

pub ends-modify_at :
    (i j n : ℕ) (f : Span → Span) (spans : List Span)
    → ((s : Span) → (f s).ended ≡ s.ended + n)
    → ends_of (get_elem? (modify_at j f spans) i)
      ≡ ends_of (get_elem? spans i)
        + (if ltb i (length spans) then (if nat_beq j i then n else 0) else 0)
unfolding modify_at
ends-modify_at i j n f [] h = ground arith
ends-modify_at zero zero n f (s ∷ spans) h = ground (arith, h s)
ends-modify_at zero (suc j) n f (s ∷ spans) h = ground arith
ends-modify_at (suc i) zero n f (s ∷ spans) h = ground arith
ends-modify_at (suc i) (suc j) n f (s ∷ spans) h = ends-modify_at i j n f spans h ∙ ground arith

pub length-modify_at :
    (j : ℕ) (f : Span → Span) (spans : List Span) → length (modify_at j f spans) ≡ length spans
unfolding modify_at
length-modify_at j f [] = ground arith
length-modify_at zero f (s ∷ spans) = refl
length-modify_at (suc j) f (s ∷ spans) = omega (arith, length-modify_at j f spans)

pub ends-append_single :
    (i : ℕ) (s : Span) (spans : List Span)
    → s.ended ≡ 0
    → ends_of (get_elem? (spans ++ s ∷ []) i) ≡ ends_of (get_elem? spans i)
ends-append_single zero s [] h = h
ends-append_single (suc i) s [] h = refl
ends-append_single zero s (x ∷ spans) h = refl
ends-append_single (suc i) s (x ∷ spans) h = ends-append_single i s spans h

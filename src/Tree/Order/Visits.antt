-- ===== src/Tree/Order/Visits.antt =====
-- The walk over a forest visits a node once if all above it is open, and else not at all.
use trace_bloom.Base.{
  ℕ, zero, suc, ◌+◌, ◌≤◌, ◌≡◌, refl, ◌⊎◌, inl, inr, String, Bool, true, false, Option, none, some,
  List, [], ◌∷◌, ◌++◌, arith, if◌then◌else◌, length, elem, ◌==◌, string_eq, beq_self, count,
  count-append, count-nil, count-cons, count-pos,
}
use trace_bloom.Tree.Order.{pre_order}

-- Whether `x` is the parent `o`.
abbrev pub is_parent : Option String → String → Bool
is_parent none x = false
is_parent (some p) x = p == x

-- What is left on the stack when the fuel is gone.
unfoldable pub stack_left : ℕ → (String → List String) → List String → List String
stack_left zero children stack = stack
stack_left (suc fuel) children [] = []
stack_left (suc fuel) children (id ∷ stack) = stack_left fuel children (children id ++ stack)

-- How often the nodes of a list push y.
unfoldable pub pushes : (String → List String) → String → List String → ℕ
pushes children y [] = 0
pushes children y (x ∷ xs) = count y (children x) + pushes children y xs

module _ (children : String → List String) where
  pub count-pre_order :
      (y : String) (fuel : ℕ) (stack : List String)
      → count y (pre_order fuel children stack) + count y (stack_left fuel children stack)
        ≡ count y stack + pushes children y (pre_order fuel children stack)
  unfolding pre_order stack_left pushes
  count-pre_order y zero stack = omega (arith, count-nil y)
  count-pre_order y (suc fuel) [] = omega (arith, count-nil y)
  count-pre_order y (suc fuel) (x ∷ stack) = omega (
    arith,
    count-pre_order y fuel (children x ++ stack),
    count-append y (children x) stack,
    count-cons y x (pre_order fuel children (children x ++ stack)),
    count-cons y x stack,
  )

  pub left_or_long :
      (fuel : ℕ) (stack : List String)
      → (stack_left fuel children stack ≡ []) ⊎ (length (pre_order fuel children stack) ≡ fuel)
  unfolding pre_order stack_left
  left_or_long zero stack = inr refl
  left_or_long (suc fuel) [] = inl refl
  left_or_long (suc fuel) (x ∷ stack) = elim (left_or_long fuel (children x ++ stack)) [
    | inl done ↦ inl done
    | inr long ↦ inr (omega arith)
  ]

remove : String → List String → List String
remove x [] = []
remove x (y ∷ ys) = if y == x then ys else y ∷ remove x ys

length-remove :
    (x : String) (ys : List String) → elem x ys ≡ true → suc (length (remove x ys)) ≡ length ys
unfolding remove
length-remove x [] h = absurd (cc)
length-remove x (y ∷ ys) h = ground (arith, length-remove x ys)

elem-remove :
    (x z : String) (ys : List String) → (x == z) ≡ false → elem z (remove x ys) ≡ elem z ys
unfolding remove
elem-remove x z [] h = refl
elem-remove x z (y ∷ ys) h =
    ground (
      arith,
      elem-remove x z ys,
      string_eq.beq_iff y x,
      string_eq.beq_iff y z,
      string_eq.beq_iff x z,
    )

-- A list without repetition of members of another is no longer.
pub length-le_of_count :
    (xs ys : List String)
    → ((z : String) → count z xs ≤ 1)
    → ((z : String) → elem z xs ≡ true → elem z ys ≡ true)
    → length xs ≤ length ys
length-le_of_count [] ys once sub = omega arith
length-le_of_count (x ∷ xs) ys once sub =
    let here : elem x ys ≡ true = sub x (ground (arith, beq_self x)) in
    let shorter : length xs ≤ length (remove x ys) =
      length-le_of_count xs (remove x ys) (λ z. omega (arith, once z, count-cons z x xs))
        (λ z h. other z h (beq_other z h)) in
    omega (arith, length-remove x ys here)
  where
    beq_other : (z : String) → elem z xs ≡ true → (x == z) ≡ false
    beq_other z h = ground (arith, once z, count-cons z x xs, count-pos z xs)

    other : (z : String) → elem z xs ≡ true → (x == z) ≡ false → elem z (remove x ys) ≡ true
    other z h n = ground (arith, elem-remove x z ys, sub z)

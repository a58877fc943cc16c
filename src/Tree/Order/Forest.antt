-- ===== src/Tree/Order/Forest.antt =====
-- The walk over a forest: every node is visited once if all above it is open, else not at all.
use trace_bloom.Base.{
  suc, ◌+◌, ◌≤◌, ◌≡◌, refl, inl, inr, String, Bool, true, false, ◌&&◌, none, some, List, [], ◌∷◌,
  arith, if◌then◌else◌, length, elem, string_eq, Bool-cases, count, count-nil, count-cons,
  count-eq-zero, count-pos, is_some,
}
use trace_bloom.Tree.{Parents, follow}
use trace_bloom.Tree.Cycles.Ends.{Rooted, root, up}
use trace_bloom.Tree.Cycles.Kept.{Above, Above-below, Above-cases, parent, no_root-Above}
use trace_bloom.Tree.Order.{pre_order}
use trace_bloom.Tree.Order.Visits.{
  is_parent, stack_left, pushes, count-pre_order, left_or_long, length-le_of_count,
}

-- What a walk relies on: the roots are the nodes with no parent, and an open node pushes exactly
-- the nodes whose parent it is.
pub record IsForest (ids roots : List String) (children : String → List String)
    (is_open : String → Bool) (parents : Parents) : Type 0 where
  pub once : (y : String) → elem y ids ≡ true → count y ids ≡ 1
  pub closed : (x y : String) → follow parents x ≡ some y → elem y ids ≡ true
  pub rooted : (x : String) → elem x ids ≡ true → Rooted parents x
  pub at_root :
      (y : String) → count y roots ≡ (if is_some (follow parents y) then 0 else count y ids)
  pub pushed :
      (x y : String)
      → count y (children x)
        ≡ (if is_open x && is_parent (follow parents y) x then count y ids else 0)

module _ (ids roots : List String) (children : String → List String) (is_open : String → Bool)
    (parents : Parents) (forest : IsForest ids roots children is_open parents) where
  abbrev pub order : List String
  order = pre_order (suc (length ids)) children roots

  abbrev pub left : List String
  left = stack_left (suc (length ids)) children roots

  pushes-none : (y : String) (xs : List String) → follow parents y ≡ none → pushes children y xs ≡ 0
  unfolding pushes
  pushes-none y [] e = refl
  pushes-none y (x ∷ xs) e = ground (arith, pushes-none y xs e, forest.pushed x y)

  pushes_outside : (y : String) (xs : List String) → elem y ids ≡ false → pushes children y xs ≡ 0
  unfolding pushes
  pushes_outside y [] e = refl
  pushes_outside y (x ∷ xs) e =
      ground (arith, pushes_outside y xs e, forest.pushed x y, count-eq-zero y ids)

  pushes-some :
      (y p : String) (xs : List String)
      → follow parents y ≡ some p
      → elem y ids ≡ true
      → pushes children y xs ≡ (if is_open p then count p xs else 0)
  unfolding pushes
  pushes-some y p [] e h = ground (arith, count-nil p)
  pushes-some y p (x ∷ xs) e h = ground (
    arith,
    pushes-some y p xs e h,
    forest.pushed x y,
    forest.once y,
    count-cons p x xs,
    string_eq.beq_iff p x,
    string_eq.beq_iff x p,
  )

  counted : (y : String) → count y order + count y left ≡ count y roots + pushes children y order
  counted y = count-pre_order children y (suc (length ids)) roots

  at_most_once :
      (y : String) → elem y ids ≡ true → Rooted parents y → count y order + count y left ≤ 1
  at_most_once y h (root e) =
      ground (arith, counted y, forest.at_root y, forest.once y, pushes-none y order e)
  at_most_once y h (up {y = p} e r) = ground (
    arith,
    counted y,
    forest.at_root y,
    pushes-some y p order e h,
    at_most_once p (forest.closed y p e) r,
  )

  not_outside : (y : String) → elem y ids ≡ false → count y order ≡ 0
  not_outside y h =
      ground (arith, counted y, forest.at_root y, count-eq-zero y ids, pushes_outside y order h)

  once_each : (y : String) → count y order ≤ 1
  once_each y = elim (Bool-cases (elem y ids)) [
    | inl h ↦ omega (arith, at_most_once y h (forest.rooted y h))
    | inr h ↦ omega (arith, not_outside y h)
  ]

  -- The fuel suffices: the stack is empty at the end.
  left_empty : left ≡ []
  left_empty = elim (left_or_long children (suc (length ids)) roots) [
    | inl done ↦ done
    | inr long ↦ absurd (too_long long)
  ]
    where
      inside : (z : String) → elem z order ≡ true → elem z ids ≡ true
      inside z h = ground (arith, not_outside z, count-pos z order)

      short : length order ≤ length ids
      short = length-le_of_count order ids once_each inside

      too_long : length order ≡ suc (length ids) → ⊥
      too_long e = omega (arith, short)

  pub count-order_root :
      (y : String) → elem y ids ≡ true → follow parents y ≡ none → count y order ≡ 1
  count-order_root y h e = ground (
    arith,
    counted y,
    forest.at_root y,
    forest.once y,
    pushes-none y order e,
    left_empty,
    count-nil y,
  )

  pub count-order_child :
      (y p : String)
      → elem y ids ≡ true
      → follow parents y ≡ some p
      → count y order ≡ (if is_open p then count p order else 0)
  count-order_child y p h e =
      ground
        (arith, counted y, forest.at_root y, pushes-some y p order e h, left_empty, count-nil y)

  -- A node is visited at most once, and only if it is one of the nodes.
  pub count-order-le : (y : String) → count y order ≤ 1
  count-order-le = once_each

  pub elem-order-ids : (y : String) → elem y order ≡ true → elem y ids ≡ true
  elem-order-ids y h = ground (arith, not_outside y, count-pos y order)

  visible-Rooted :
      (y : String)
      → Rooted parents y
      → elem y ids ≡ true
      → ((a : String) → Above parents y a → is_open a ≡ true)
      → count y order ≡ 1
  visible-Rooted y (root e) h o = count-order_root y h e
  visible-Rooted y (up {y = p} e r) h o = ground (
    arith,
    count-order_child y p h e,
    o p (parent e),
    visible-Rooted p r (forest.closed y p e) (λ a k. o a (Above-below e k)),
  )

  -- A node whose ancestors are all open is visited exactly once.
  pub count-order_visible :
      (y : String)
      → elem y ids ≡ true
      → ((a : String) → Above parents y a → is_open a ≡ true)
      → count y order ≡ 1
  count-order_visible y h o = visible-Rooted y (forest.rooted y h) h o

  open-Above-Rooted :
      (y a : String)
      → Rooted parents y
      → elem y ids ≡ true
      → 1 ≤ count y order
      → Above parents y a
      → is_open a ≡ true
  open-Above-Rooted y a (root e) h v k = absurd (no_root-Above e k)
  open-Above-Rooted y a (up {y = p} e r) h v k = elim (Above-cases e k) [
    | inl same ↦ ground (arith, count-order_child y p h e)
    | inr above ↦
        open-Above-Rooted p a r (forest.closed y p e) (ground (arith, count-order_child y p h e))
          above
  ]

  -- And one that is visited has no closed ancestor.
  pub is_open-Above :
      (y a : String)
      → elem y ids ≡ true
      → elem y order ≡ true
      → Above parents y a
      → is_open a ≡ true
  is_open-Above y a h v k = open-Above-Rooted y a (forest.rooted y h) h (count-pos y order v) k

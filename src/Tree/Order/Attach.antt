-- ===== src/Tree/Order/Attach.antt =====
-- What the loops that fill and sort the children arrays leave.
use trace_bloom.Base.{
  ◌≡◌, refl, ap, ◌∙◌, inl, inr, String, Bool, true, not, some, List, [], ◌∷◌, ◌++◌, arith,
  if◌then◌else◌, keep, elem, ◌==◌, string_eq, Bool-cases, Option-cases, count, count-nil,
  count-cons, is_some,
}
use mathlib.Core.List.{append_assoc, append-nil}
use trace_bloom.Text.Sort.{sort}
use trace_bloom.Dict
use trace_bloom.Dict.{Dict, keys, map_some}
use trace_bloom.Tree.{SpanNode, Nodes, Parents, follow}
use trace_bloom.Tree.Order.{attach, sort_children, children_of}
use trace_bloom.Tree.Order.Visits.{is_parent}

pub count-keep :
    (y : String) (p : String → Bool) (xs : List String)
    → count y (keep p xs) ≡ (if p y then count y xs else 0)
count-keep y p [] = ground (arith, count-nil y)
count-keep y p (x ∷ xs) =
    ground (
      arith,
      count-keep y p xs,
      count-cons y x xs,
      count-cons y x (keep p xs),
      string_eq.beq_iff x y,
    )

-- A change of a node that leaves its children.
pub children_of-modify :
    (k x : String) (f : SpanNode → SpanNode) (nodes : Nodes)
    → ((n : SpanNode) → (f n).children ≡ n.children)
    → children_of (Dict.modify k f nodes) x ≡ children_of nodes x
unfolding children_of
children_of-modify k x f nodes same = elim (Option-cases (Dict.get x nodes)) [
  | inl e ↦ ground (arith, Dict.get-modify k x f nodes)
  | inr (n, e) ↦ ground (arith, Dict.get-modify k x f nodes, same n)
]

children_of-push :
    (k x id : String) (nodes : Nodes)
    → elem k (keys nodes) ≡ true
    → children_of (Dict.modify k (λ n. record n { children = n.children ++ id ∷ [] }) nodes) x
      ≡ (if k == x then children_of nodes x ++ id ∷ [] else children_of nodes x)
unfolding children_of
children_of-push k x id nodes h = ground (
  arith,
  Dict.get-modify k x (λ (n : SpanNode). record n { children = n.children ++ id ∷ [] }) nodes,
  Dict.elem-keys k nodes,
  string_eq.beq_iff k x,
)

pub attach-roots :
    (parents : Parents) (ids roots : List String) (nodes : Nodes)
    → (attach parents ids (roots, nodes)).0
      ≡ roots ++ keep (λ y. not (is_some (follow parents y))) ids
unfolding attach
attach-roots parents [] roots nodes = rw append-nil
attach-roots parents (id ∷ ids) roots nodes = elim (Option-cases (follow parents id)) [
  | inl e ↦
      rw (e, attach)
        (attach-roots parents ids (roots ++ id ∷ []) nodes ∙ append_assoc roots (id ∷ []) _)
  | inr (p, e) ↦ rw (e, attach) (attach-roots parents ids roots _)
]

pub attach-keys :
    (parents : Parents) (ids roots : List String) (nodes : Nodes)
    → keys (attach parents ids (roots, nodes)).1 ≡ keys nodes
unfolding attach
attach-keys parents [] roots nodes = refl
attach-keys parents (id ∷ ids) roots nodes = elim (Option-cases (follow parents id)) [
  | inl e ↦ rw (e, attach) (attach-keys parents ids (roots ++ id ∷ []) nodes)
  | inr (p, e) ↦ rw (e, attach) (attach-keys parents ids roots _ ∙ Dict.keys-modify p _ nodes)
]

pub attach-children :
    (parents : Parents) (ids roots : List String) (nodes : Nodes) (x : String)
    → ((y p : String) → follow parents y ≡ some p → elem p (keys nodes) ≡ true)
    → children_of (attach parents ids (roots, nodes)).1 x
      ≡ children_of nodes x ++ keep (λ y. is_parent (follow parents y) x) ids
unfolding attach
attach-children parents [] roots nodes x closed = rw append-nil
attach-children parents (id ∷ ids) roots nodes x closed = elim (Option-cases (follow parents id)) [
  | inl e ↦ rw (e, attach) (attach-children parents ids (roots ++ id ∷ []) nodes x closed)
  | inr (p, e) ↦
      let step =
        attach-children parents ids roots
          (Dict.modify p (λ n. record n { children = n.children ++ id ∷ [] }) nodes) x
          (λ y q f. ground (
            arith,
            closed y q f,
            Dict.keys-modify p (λ (n : SpanNode). record n { children = n.children ++ id ∷ [] })
                nodes,
          )) in
      let pushed = children_of-push p x id nodes (closed id p e) in
      rw (e, attach)
        (step ∙ elim (Bool-cases (p == x)) [
          | inl h ↦ rw (pushed, h) (append_assoc (children_of nodes x) (id ∷ []) _)
          | inr h ↦ rw (pushed, h) refl
        ])
]

pub sort_children-keys :
    (before : String → String → Bool) (nodes : Nodes)
    → keys (sort_children before nodes) ≡ keys nodes
unfolding sort_children
sort_children-keys before [] = refl
sort_children-keys before ((id, n) ∷ nodes) = ap (◌∷◌ id) (sort_children-keys before nodes)

pub sort_children-children :
    (before : String → String → Bool) (nodes : Nodes) (x : String)
    → children_of (sort_children before nodes) x ≡ sort before (children_of nodes x)
unfolding sort_children children_of sort Dict.get
sort_children-children before [] x = refl
sort_children-children before ((id, n) ∷ nodes) x = elim (Bool-cases (id == x)) [
  | inl h ↦ rw h refl
  | inr h ↦ rw h (sort_children-children before nodes x)
]

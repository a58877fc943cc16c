-- ===== src/Tree/Build/Linked.antt =====
-- The nodes and links that the ordering part of buildSpanTree starts from.
use trace_bloom.Base.{
  ℕ, suc, ◌≡◌, refl, inl, inr, String, Bool, true, false, some, List, [], ◌∷◌, ◌++◌, arith, length,
  string_eq, elem, ◌==◌, count, count-cons, count-eq-zero, Bool-cases,
}
use trace_bloom.Dict
use trace_bloom.Dict.{Dict, keys, map_some, IsMap}
use trace_bloom.Traces.{TraceSpan}
use trace_bloom.Tree.{
  SpanNode, Nodes, Parents, follow, make_node, index_spans, pending_starts, add_pending,
  with_pending, resolve_one, resolve_parents,
}
use trace_bloom.Tree.Cycles.{walk, cut_parent, flag_orphan, cut_cycles}
use trace_bloom.Tree.Cycles.Ends.{Rooted, follow-cut}
use trace_bloom.Tree.Cycles.Rooted.{cut_cycles-Rooted}
use trace_bloom.Tree.Order.{children_of}
use trace_bloom.Tree.Build.{index_nodes, link}
use trace_bloom.Tree.Build.Shape.{
  SameShape, SameShape-trans, resolve_parents-SameShape, cut_cycles-SameShape,
}

-- No id twice, and no children yet.
pub record IsBare (nodes : Nodes) : Type 0 where
  pub distinct : IsMap nodes
  pub childless : (x : String) → children_of nodes x ≡ []

set-IsBare :
    (id : String) (n : SpanNode) (nodes : Nodes)
    → n.children ≡ []
    → IsBare nodes
    → IsBare (Dict.set id n nodes)
unfolding children_of
set-IsBare id n nodes e b = record {
  distinct = Dict.set-IsMap id n nodes b.distinct;
  childless = λ x. ground (arith, Dict.get-set id x n nodes, b.childless x);
}

index_spans-IsBare :
    (spans : List TraceSpan) (nodes : Nodes) → IsBare nodes → IsBare (index_spans spans nodes)
unfolding index_spans
index_spans-IsBare [] nodes b = b
index_spans-IsBare (s ∷ spans) nodes b = elim (Bool-cases (Dict.has s.span_id nodes)) [
  | inl h ↦ rw h (index_spans-IsBare spans nodes b)
  | inr h ↦ rw h (
      index_spans-IsBare spans _
        (set-IsBare s.span_id (make_node s) nodes (unfold make_node in refl) b))
]

add_pending-IsBare :
    (starts : Dict String ℕ) (nodes : Nodes) → IsBare nodes → IsBare (add_pending starts nodes)
unfolding add_pending
add_pending-IsBare [] nodes b = b
add_pending-IsBare ((id, start) ∷ starts) nodes b =
    add_pending-IsBare starts _ (set-IsBare id _ nodes refl b)

pub index_nodes-IsBare :
    (pending : Bool) (spans : List TraceSpan) → IsBare (index_nodes pending spans)
unfolding index_nodes with_pending
index_nodes-IsBare false spans =
    index_spans-IsBare spans []
      (record { distinct = tt; childless = λ x. unfold children_of Dict.get in refl })
index_nodes-IsBare true spans =
    add_pending-IsBare (pending_starts (index_spans spans []) (index_spans spans []) [])
      (index_spans spans [])
      (index_spans-IsBare spans []
        (record { distinct = tt; childless = λ x. unfold children_of Dict.get in refl }))

-- A node's link, if it has one, is the parent that its row names, and is a node.
resolve_one-some :
    (by_id : Nodes) (s : TraceSpan) (p : String)
    → (resolve_one by_id s).0 ≡ some p
    → (s.parent_span_id ≡ p) × (Dict.has p by_id ≡ true)
unfolding resolve_one
resolve_one-some by_id s p e = ground arith

pub resolve_parents-some :
    (by_id nodes : Nodes) (x p : String)
    → follow (resolve_parents by_id nodes).0 x ≡ some p
    → elem p (keys by_id) ≡ true
unfolding resolve_parents Dict.get
resolve_parents-some by_id [] x p e = absurd (cc)
resolve_parents-some by_id ((id, n) ∷ rest) x p e = elim (Bool-cases (id == x)) [
  | inl h ↦
      unfold Dict.has in ground (arith, Dict.elem-keys p by_id, resolve_one-some by_id n.span p)
  | inr h ↦ resolve_parents-some by_id rest x p (rw h at e)
]

-- Cutting only takes links away.
pub cut_cycles-follow :
    (fuel : ℕ) (starts safe : List String) (parents : Parents) (nodes : Nodes) (x p : String)
    → follow (cut_cycles fuel starts safe (parents, nodes)).0 x ≡ some p
    → follow parents x ≡ some p
unfolding cut_cycles
cut_cycles-follow fuel [] safe parents nodes x p e = e
cut_cycles-follow fuel (start ∷ starts) safe parents nodes x p e =
    let w = walk fuel safe parents (some start) [] in
    let f =
      cut_cycles-follow fuel starts (safe ++ w.path) (cut_parent w.cut parents)
        (flag_orphan w.cut nodes) x p e in
    ground (arith, follow-cut w.cut parents x)

pub record IsLinked (nodes : Nodes) (state : Parents × Nodes) : Type 0 where
  pub shape : SameShape state.1 nodes
  pub closed : (x p : String) → follow state.0 x ≡ some p → elem p (keys nodes) ≡ true
  pub rooted : (x : String) → elem x (keys nodes) ≡ true → Rooted state.0 x

pub link-IsLinked : (nodes : Nodes) → IsLinked nodes (link nodes)
unfolding link
link-IsLinked nodes =
    let ids = keys nodes in
    let parents = (resolve_parents nodes nodes).0 in
    let marked = (resolve_parents nodes nodes).1 in
    record {
      shape =
          SameShape-trans (cut_cycles-SameShape (suc (length ids)) ids [] parents marked)
            (resolve_parents-SameShape nodes nodes);
      closed = λ x p e.
          resolve_parents-some nodes nodes x p
            (cut_cycles-follow (suc (length ids)) ids [] parents marked x p e);
      rooted = cut_cycles-Rooted ids parents marked (resolve_parents-some nodes nodes);
    }

pub count-keys : (m : Nodes) (y : String) → IsMap m → elem y (keys m) ≡ true → count y (keys m) ≡ 1
count-keys [] y d h = absurd (cc)
count-keys ((id, n) ∷ m) y d h = elim (Bool-cases (elem y (keys m))) [
  | inl k ↦ ground (arith, count-keys m y d.1 k, count-cons y id (keys m), string_eq.beq_iff id y)
  | inr k ↦ ground (arith, count-eq-zero y (keys m) k, count-cons y id (keys m))
]

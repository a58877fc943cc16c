-- ===== src/Tree/Build/Visible.antt =====
-- The tree that buildSpanTree returns is a forest over its nodes, and what flattenVisible shows.
use trace_bloom.Base.{
  suc, ◌≤◌, ◌≡◌, ap, ◌∙◌, sym, ◌↔◌, String, Bool, true, false, ◌&&◌, not, some, List, [], ◌∷◌, ◌++◌,
  arith, length, keep, string_eq, if◌then◌else◌, elem, count, count-nil, is_some, count-eq-zero,
}
use trace_bloom.Text.Sort.{count-sort}
use trace_bloom.Dict
use trace_bloom.Dict.{Dict, keys, values, IsMap}
use trace_bloom.Traces.{TraceSpan, SpanEvalResult}
use trace_bloom.Tree.{SpanTree, Nodes, Parents, follow}
use trace_bloom.Tree.Cycles.Kept.{Above}
use trace_bloom.Tree.Order.{
  attach, by_start_then_id, children_of, open_children, pre_order, flatten_visible,
}
use trace_bloom.Tree.Order.Visits.{is_parent}
use trace_bloom.Tree.Order.Forest.{
  IsForest, count-order-le, elem-order-ids, count-order_visible, is_open-Above,
}
use trace_bloom.Tree.Order.Attach.{
  count-keep, attach-roots, attach-keys, attach-children, sort_children-keys,
  sort_children-children,
}
use trace_bloom.Tree.Build.{index_nodes, link, order_nodes, build_span_tree}
use trace_bloom.Tree.Build.Shape.{SameShape, decorate-SameShape}
use trace_bloom.Tree.Build.Linked.{index_nodes-IsBare, link-IsLinked, count-keys}

length-keys : (m n : Nodes) → keys m ≡ keys n → length m ≡ length (keys n)
length-keys [] n e = ap length e
length-keys (x ∷ m) [] e = absurd (cc)
length-keys (x ∷ m) (y ∷ n) e = ap suc (length-keys m n (ap tail e))
  where
    tail : List String → List String
    tail [] = []
    tail (x ∷ xs) = xs

module _ (ids : List String) (parents : Parents) (marked : Nodes)
    (closed : (y p : String) → follow parents y ≡ some p → elem p (keys marked) ≡ true)
    (childless : (x : String) → children_of marked x ≡ []) where
  count-roots :
      (y : String)
      → count y (order_nodes ids (parents, marked)).0
        ≡ (if is_some (follow parents y) then 0 else count y ids)
  unfolding order_nodes
  count-roots y =
      count-sort (by_start_then_id (attach parents ids ([], marked)).1) y
        (attach parents ids ([], marked)).0
      ∙ ap (count y) (attach-roots parents ids [] marked)
      ∙ count-keep y (λ z. not (is_some (follow parents z))) ids
      ∙ ground arith

  count-children :
      (x y : String)
      → count y (children_of (order_nodes ids (parents, marked)).1 x)
        ≡ (if is_parent (follow parents y) x then count y ids else 0)
  unfolding order_nodes
  count-children x y =
      let attached = (attach parents ids ([], marked)).1 in
      ap (count y) (sort_children-children (by_start_then_id attached) attached x)
      ∙ count-sort (by_start_then_id attached) y (children_of attached x)
      ∙ ap (count y) (
          attach-children parents ids [] marked x closed
          ∙ ap (λ z. z ++ keep (λ y. is_parent (follow parents y) x) ids) (childless x))
      ∙ count-keep y (λ z. is_parent (follow parents z) x) ids

  order_nodes-keys : keys (order_nodes ids (parents, marked)).1 ≡ keys marked
  unfolding order_nodes
  order_nodes-keys = sort_children-keys _ _ ∙ attach-keys parents ids [] marked

-- The links of the tree, after the cycles are cut.
abbrev pub links_of : List TraceSpan → Bool → Parents
links_of spans pending_parents = (link (index_nodes pending_parents spans)).0

module _ (spans : List TraceSpan) (results : List SpanEvalResult) (pending : Bool) where
  abbrev nodes : Nodes
  nodes = index_nodes pending spans

  abbrev marked : Nodes
  marked = (link nodes).1

  abbrev tree : SpanTree
  tree = build_span_tree spans results pending

  marked_shape : SameShape marked nodes
  marked_shape = (link-IsLinked nodes).shape

  closed_marked :
      (y p : String) → follow (links_of spans pending) y ≡ some p → elem p (keys marked) ≡ true
  closed_marked y p e = ap (elem p) (marked_shape.ids) ∙ (link-IsLinked nodes).closed y p e

  childless_marked : (x : String) → children_of marked x ≡ []
  childless_marked x = marked_shape.links x ∙ (index_nodes-IsBare pending spans).childless x

  tree_shape : SameShape tree.by_id (order_nodes (keys nodes) (link nodes)).1
  unfolding build_span_tree
  tree_shape = decorate-SameShape results (order_nodes (keys nodes) (link nodes)).0 _

  pub tree-keys : keys tree.by_id ≡ keys nodes
  tree-keys =
      tree_shape.ids
      ∙ order_nodes-keys (keys nodes) (links_of spans pending) marked closed_marked childless_marked
      ∙ marked_shape.ids

  pub tree-once : (y : String) → elem y (keys nodes) ≡ true → count y (keys nodes) ≡ 1
  tree-once y h = count-keys nodes y (index_nodes-IsBare pending spans).distinct h

  pub tree-roots :
      (y : String)
      → count y tree.roots
        ≡ (if is_some (follow (links_of spans pending) y) then 0 else count y (keys nodes))
  unfolding build_span_tree
  tree-roots y =
      count-roots (keys nodes) (links_of spans pending) marked closed_marked childless_marked y

  pub tree-children :
      (x y : String)
      → count y (children_of tree.by_id x)
        ≡ (if is_parent (follow (links_of spans pending) y) x then count y (keys nodes) else 0)
  tree-children x y =
      ap (count y) (tree_shape.links x)
      ∙ count-children (keys nodes) (links_of spans pending) marked closed_marked childless_marked x
          y

  tree-IsForest :
      (collapsed : List String)
      → IsForest
          (keys nodes)
          tree.roots
          (open_children tree.by_id collapsed)
          (λ x. not (elem x collapsed))
          (links_of spans pending)
  tree-IsForest collapsed = record {
    once = tree-once;
    closed = (link-IsLinked nodes).closed;
    rooted = (link-IsLinked nodes).rooted;
    at_root = tree-roots;
    pushed = λ x y. ground (arith, tree-children x y, count-nil y);
  }

  abbrev shown_list : List String → List String
  shown_list collapsed =
      pre_order (suc (length (keys nodes))) (open_children tree.by_id collapsed) tree.roots

  visible_list :
      (collapsed : List String)
      → flatten_visible tree collapsed
        ≡ pre_order (suc (length (keys nodes))) (open_children tree.by_id collapsed) tree.roots
  unfolding flatten_visible
  visible_list collapsed =
      ap (λ k. pre_order (suc k) (open_children tree.by_id collapsed) tree.roots)
        (length-keys tree.by_id nodes tree-keys)

  has-nodes : (y : String) → Dict.has y tree.by_id ≡ elem y (keys nodes)
  unfolding Dict.has
  has-nodes y = sym (Dict.elem-keys y tree.by_id) ∙ ap (elem y) tree-keys

  -- Of the list that flattenVisible returns for the tree of any rows, with any set of collapsed
  -- spans: no span stands in it twice, and a span stands in it exactly if it is a node of the tree
  -- and none of its ancestors, by the links after cycles are cut, is collapsed.
  pub flatten_visible-build :
      (collapsed : List String) (y : String)
      → (count y (flatten_visible tree collapsed) ≤ 1)
        × ((elem y (flatten_visible tree collapsed) ≡ true)
            ↔ (Dict.has y tree.by_id ≡ true)
              × ((a : String) → Above (links_of spans pending) y a → elem a collapsed ≡ false))
  flatten_visible-build collapsed y =
      rw (visible_list collapsed, has-nodes y) (at_most, (shown, all_open))
    where
      at_most : count y (shown_list collapsed) ≤ 1
      at_most = count-order-le _ _ _ _ _ (tree-IsForest collapsed) y

      shown :
          elem y (shown_list collapsed) ≡ true
          → (elem y (keys nodes) ≡ true)
            × ((a : String) → Above (links_of spans pending) y a → elem a collapsed ≡ false)
      shown h =
          let k = elem-order-ids _ _ _ _ _ (tree-IsForest collapsed) y h in
          (
            k,
            λ a above.
                let o = is_open-Above _ _ _ _ _ (tree-IsForest collapsed) y a k h above in
                ground arith,
          )

      all_open :
          (elem y (keys nodes) ≡ true)
            × ((a : String) → Above (links_of spans pending) y a → elem a collapsed ≡ false)
          → elem y (shown_list collapsed) ≡ true
      all_open (k, o) =
          let c =
            count-order_visible _ _ _ _ _ (tree-IsForest collapsed) y k
              (λ a above. let e = o a above in ground arith) in
          ground (arith, count-eq-zero y (shown_list collapsed))

  -- In the tree of any rows, a span is listed among the children of x exactly as often as its link
  -- says: once if it is a node whose link is x, and else never; and it is listed among the roots
  -- once if it is a node without a link, and else never.
  pub build_span_tree-links :
      (x y : String)
      → (count y (children_of tree.by_id x) ≡ (
          if Dict.has y tree.by_id && is_parent (follow (links_of spans pending) y) x
          then 1
          else 0))
        × (count y tree.roots ≡ (
            if Dict.has y tree.by_id && not (is_some (follow (links_of spans pending) y))
            then 1
            else 0))
  build_span_tree-links x y =
      rw (has-nodes y, tree-children x y, tree-roots y)
        (
          ground (arith, tree-once y, count-eq-zero y (keys nodes)),
          ground (arith, tree-once y, count-eq-zero y (keys nodes)),
        )

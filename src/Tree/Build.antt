-- ===== src/Tree/Build.antt =====
-- buildSpanTree, composed of its parts.
pub mod Shape
pub mod Linked
pub mod Visible
use trace_bloom.Base.{ℕ, suc, ◌+◌, String, Bool, true, false, List, [], ◌∷◌, if◌then◌else◌, length}
use trace_bloom.Text.Sort.{sort}
use trace_bloom.Dict
use trace_bloom.Dict.{Dict, keys, values}
use trace_bloom.Traces.{TraceSpan, SpanEvalResult}
use trace_bloom.Tree.{
  SpanNode, SpanTree, Nodes, Parents, index_spans, with_pending, resolve_parents,
}
use trace_bloom.Tree.Cycles.{cut_cycles}
use trace_bloom.Tree.Order.{
  attach, by_start_then_id, sort_children, children_of, pre_order, assign_depths,
}
use trace_bloom.Tree.Rollup.{attach_evals, roll_up}

-- `byId` before the links are resolved.
unfoldable pub index_nodes : Bool → List TraceSpan → Nodes
index_nodes pending_parents spans = with_pending pending_parents (index_spans spans [])

-- `parentOf` and the nodes once the cycles are cut.
unfoldable pub link : Nodes → Parents × Nodes
link nodes =
    let ids = keys nodes in cut_cycles (suc (length ids)) ids [] (resolve_parents nodes nodes)

-- The roots and the nodes with their children, in order.
unfoldable pub order_nodes : List String → Parents × Nodes → List String × Nodes
order_nodes ids (parents, nodes) =
    let (roots, attached) = attach parents ids ([], nodes) in
    let before = by_start_then_id attached in (sort before roots, sort_children before attached)

unfoldable pub count_where : (SpanNode → Bool) → List SpanNode → ℕ
count_where p [] = 0
count_where p (n ∷ ns) = (if p n then 1 else 0) + count_where p ns

-- From the pre-order on: depths, evaluations, roll-ups.
unfoldable pub decorate : List SpanEvalResult → List String → Nodes → Nodes
decorate eval_results roots nodes =
    let order = pre_order (suc (length nodes)) (children_of nodes) roots in
    roll_up order (attach_evals eval_results (assign_depths order nodes))

unfoldable pub build_span_tree : List TraceSpan → List SpanEvalResult → Bool → SpanTree
unfolding count_where
build_span_tree spans eval_results pending_parents =
    let nodes = index_nodes pending_parents spans in
    let (roots, ordered) = order_nodes (keys nodes) (link nodes) in
    let by_id = decorate eval_results roots ordered in
    record {
      roots = roots;
      by_id = by_id;
      node_count = length by_id;
      orphan_count = count_where (λ n. n.orphaned) (values by_id);
      pending_count = count_where (λ n. n.pending) (values by_id);
    }

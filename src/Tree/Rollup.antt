-- ===== src/Tree/Rollup.antt =====
-- The parts of buildSpanTree that attach evaluations and fold each subtree's roll-up.
use trace_bloom.Base.{
  ◌+◌, String, Bool, ◌||◌, not, List, [], ◌∷◌, ◌++◌, if◌then◌else◌, string_eq, or_else,
}
use trace_bloom.Text.{is_empty}
use trace_bloom.Dict
use trace_bloom.Dict.{Dict, map_some}
use trace_bloom.Traces.{SpanEvalResult}
use trace_bloom.Tree.{SubtreeRollup, SpanNode, Nodes}
use trace_bloom.Tree.Order.{children_of}

abbrev pub eval_failed : SpanEvalResult → Bool
eval_failed result = not (is_empty result.error_type) || not result.passed

unfoldable pub add_eval : SpanEvalResult → SpanNode → SpanNode
add_eval result node = record node {
  evals = node.evals ++ result ∷ [];
  rollup = record (node.rollup) {
    eval_count = node.rollup.eval_count + 1;
    eval_fail_count =
        if eval_failed result then node.rollup.eval_fail_count + 1 else node.rollup.eval_fail_count;
  };
}

-- The loop over `evalResults`. A result of a span that is not there changes nothing.
unfoldable pub attach_evals : List SpanEvalResult → Nodes → Nodes
unfolding add_eval
attach_evals [] nodes = nodes
attach_evals (result ∷ results) nodes =
    attach_evals results (Dict.modify result.span_id (add_eval result) nodes)

-- `r.spanCount += c.spanCount`, and so on.
unfoldable pub add_rollup : SubtreeRollup → SubtreeRollup → SubtreeRollup
add_rollup r c = record {
  span_count = r.span_count + c.span_count;
  error_count = r.error_count + c.error_count;
  retry_count = r.retry_count + c.retry_count;
  input_tokens = r.input_tokens + c.input_tokens;
  output_tokens = r.output_tokens + c.output_tokens;
  total_tokens = r.total_tokens + c.total_tokens;
  cost_usd = r.cost_usd + c.cost_usd;
  duration_ns = r.duration_ns + c.duration_ns;
  eval_count = r.eval_count + c.eval_count;
  eval_fail_count = r.eval_fail_count + c.eval_fail_count;
}

unfoldable pub no_rollup : SubtreeRollup
no_rollup = record {
  span_count = 0;
  error_count = 0;
  retry_count = 0;
  input_tokens = 0;
  output_tokens = 0;
  total_tokens = 0;
  cost_usd = 0;
  duration_ns = 0;
  eval_count = 0;
  eval_fail_count = 0;
}

unfoldable pub rollup_of : Nodes → String → SubtreeRollup
unfolding no_rollup
rollup_of nodes id = or_else (map_some (λ n. n.rollup) (Dict.get id nodes)) no_rollup

-- The inner loop, over the children of one node.
unfoldable pub add_children : String → List String → Nodes → Nodes
add_children id [] nodes = nodes
add_children id (child ∷ children) nodes =
    add_children id children (
      Dict.modify id (λ n. record n { rollup = add_rollup n.rollup (rollup_of nodes child) }) nodes)

-- The outer loop, over the pre-order from its end.
unfoldable pub roll_up : List String → Nodes → Nodes
unfolding add_children
roll_up [] nodes = nodes
roll_up (id ∷ order) nodes =
    let later = roll_up order nodes in add_children id (children_of later id) later

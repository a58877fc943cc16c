-- ===== src/Tree.antt =====
-- apps/dashboard/lib/trace-tree.ts: the span tree of a trace. The nodes are objects that refer to
-- one another; here they stand in a store by span id, and a reference is the id.
pub mod Cycles
pub mod Order
pub mod Rollup
pub mod Build
pub mod Tests
use trace_bloom.Base.{
  ℕ, suc, ◌+◌, min, String, Bool, true, false, ◌&&◌, ◌||◌, not, Option, none, some, List, [], ◌∷◌,
  ◌++◌, map, leb, ltb, nat_beq, if◌then◌else◌, length, elem, ◌==◌, string_eq, is_some,
}
use trace_bloom.Text.{str_lt, is_empty}
use trace_bloom.Text.Sort.{sort}
use trace_bloom.Dict
use trace_bloom.Dict.{Dict, keys}
use trace_bloom.Traces.{TraceSpan, SpanEvalResult}

pub data SpanCategory : Type 0 where
  llm tool agent generic : SpanCategory

-- SubtreeRollup.
pub record SubtreeRollup : Type 0 where
  pub span_count : ℕ
  pub error_count : ℕ
  pub retry_count : ℕ
  pub input_tokens : ℕ
  pub output_tokens : ℕ
  pub total_tokens : ℕ
  pub cost_usd : ℕ
  pub duration_ns : ℕ
  pub eval_count : ℕ
  pub eval_fail_count : ℕ

-- SpanNode.
pub record SpanNode : Type 0 where
  pub span : TraceSpan
  pub children : List String
  pub depth : ℕ
  pub category : SpanCategory
  pub orphaned : Bool
  pub pending : Bool
  pub has_error : Bool
  pub is_retry : Bool
  pub rollup : SubtreeRollup
  pub evals : List SpanEvalResult

-- SpanTree.
pub record SpanTree : Type 0 where
  pub roots : List String
  pub by_id : Dict String SpanNode
  pub node_count : ℕ
  pub orphan_count : ℕ
  pub pending_count : ℕ

abbrev pub llm_operations : List String
llm_operations = "chat" ∷ "text_completion" ∷ "generate_content" ∷ "embeddings" ∷ []

abbrev pub agent_operations : List String
agent_operations = "invoke_agent" ∷ "create_agent" ∷ []

unfoldable pub categorize : TraceSpan → SpanCategory
categorize span =
    if span.operation_name == "execute_tool" || not (is_empty span.tool_name)
    then tool
    else if elem span.operation_name agent_operations
    then agent
    else if elem span.operation_name llm_operations || not (is_empty span.request_model)
    then llm
    else generic

-- makeNode.
unfoldable pub make_node : TraceSpan → SpanNode
make_node span =
    let is_retry = leb 2 span.retry_attempt in
    let has_error = span.status_code == "ERROR" in
    record {
      span = span;
      children = [];
      depth = 0;
      category = categorize span;
      orphaned = false;
      pending = false;
      has_error = has_error;
      is_retry = is_retry;
      rollup = record {
        span_count = 1;
        error_count = if has_error then 1 else 0;
        retry_count = if is_retry then 1 else 0;
        input_tokens = span.input_tokens;
        output_tokens = span.output_tokens;
        total_tokens = span.total_tokens;
        cost_usd = span.cost_usd;
        duration_ns = span.duration_ns;
        eval_count = 0;
        eval_fail_count = 0;
      };
      evals = [];
    }

-- makePendingSpan.
unfoldable pub make_pending_span : String → ℕ → TraceSpan
make_pending_span span_id start = record {
  span_id = span_id;
  parent_span_id = "";
  name = "";
  kind = "";
  status_code = "UNSET";
  status_message = "";
  service_name = "";
  operation_name = "";
  provider = "";
  request_model = "";
  response_model = "";
  input_tokens = 0;
  output_tokens = 0;
  total_tokens = 0;
  cost_usd = 0;
  start_offset_ns = start;
  duration_ns = 0;
  tool_name = "";
  prompt_version = "";
  retry_attempt = 0;
  ingested_ms = 0;
}

abbrev pub Nodes : Type 0
Nodes = Dict String SpanNode

-- The first loop of buildSpanTree: the first row of each span id.
unfoldable pub index_spans : List TraceSpan → Nodes → Nodes
index_spans [] nodes = nodes
index_spans (span ∷ spans) nodes =
    index_spans spans
      (if Dict.has span.span_id nodes then nodes else Dict.set span.span_id (make_node span) nodes)

-- `known === undefined ? start : Math.min(known, start)`.
abbrev pub earliest : Option ℕ → ℕ → ℕ
earliest none start = start
earliest (some known) start = min known start

-- With pendingParents: the parents that are named and absent, with their children's first start.
unfoldable pub pending_starts : Nodes → Nodes → Dict String ℕ → Dict String ℕ
pending_starts by_id [] starts = starts
pending_starts by_id ((id, node) ∷ rest) starts =
    let parent = node.span.parent_span_id in
    pending_starts by_id rest (
      if is_empty parent || parent == node.span.span_id || Dict.has parent by_id
      then starts
      else Dict.set parent (earliest (Dict.get parent starts) node.span.start_offset_ns) starts)

unfoldable pub add_pending : Dict String ℕ → Nodes → Nodes
unfolding make_node make_pending_span
add_pending [] nodes = nodes
add_pending ((id, start) ∷ rest) nodes =
    add_pending rest
      (Dict.set id (record (make_node (make_pending_span id start)) { pending = true }) nodes)

unfoldable pub with_pending : Bool → Nodes → Nodes
unfolding pending_starts add_pending
with_pending pending_parents nodes =
    if pending_parents then add_pending (pending_starts nodes nodes []) nodes else nodes

-- parentOf: a node with no entry, or with the entry `undefined`, has no parent.
abbrev pub Parents : Type 0
Parents = Dict String (Option String)

abbrev pub join : Option (Option String) → Option String
join none = none
join (some o) = o

abbrev pub follow : Parents → String → Option String
follow parents id = join (Dict.get id parents)

-- What the resolving loop sets for one node: its parent, and whether it is an orphan.
unfoldable pub resolve_one : Nodes → TraceSpan → Option String × Bool
resolve_one by_id span =
    let parent = span.parent_span_id in
    if is_empty parent || parent == span.span_id
    then (none, not (is_empty parent))
    else if Dict.has parent by_id
    then (some parent, false)
    else (none, true)

unfoldable pub resolve_parents : Nodes → Nodes → Parents × Nodes
unfolding resolve_one
resolve_parents by_id [] = ([], [])
resolve_parents by_id ((id, node) ∷ rest) =
    let (parents, nodes) = resolve_parents by_id rest in
    let (parent, orphaned) = resolve_one by_id node.span in
    (
      (id, parent) ∷ parents,
      (id, record node { orphaned = if is_some parent then node.orphaned else orphaned }) ∷ nodes,
    )

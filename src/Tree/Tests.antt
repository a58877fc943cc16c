-- ===== src/Tree/Tests.antt =====
-- Runs of lib/trace-tree.ts on small inputs, and the theorems at inputs that meet their hypotheses.
use trace_bloom.Base.{
  ℕ, ◌≤◌, ◌≡◌, refl, ◌↔◌, String, true, false, ◌&&◌, not, List, [], ◌∷◌, some, string_eq, is_some,
  ◌⊎◌, inl, inr, Bool-cases, if◌then◌else◌, arith, elem, ◌==◌, count,
}
use trace_bloom.Text.{codes_lt, str_lt, is_empty}
use trace_bloom.Text.Sort.{sort, insert}
use trace_bloom.Dict
use trace_bloom.Dict.{keys}
use trace_bloom.Traces.{TraceSpan}
use trace_bloom.Tree.{
  SpanTree, Nodes, Parents, follow, make_node, index_spans, with_pending, resolve_parents,
}
use trace_bloom.Tree.Cycles.{cut_cycles}
use trace_bloom.Tree.Cycles.Ends.{Rooted}
use trace_bloom.Tree.Cycles.Rooted.{cut_cycles-Rooted}
use trace_bloom.Tree.Cycles.Kept.{Above, parent, higher, cut_cycles-kept}
use trace_bloom.Tree.Order.{
  children_of, attach, by_start_then_id, sort_children, pre_order, flatten_visible,
}
use trace_bloom.Tree.Order.Visits.{is_parent}
use trace_bloom.Tree.Build.{index_nodes, link, order_nodes, build_span_tree}
use trace_bloom.Tree.Build.Visible.{links_of, flatten_visible-build, build_span_tree-links}

abbrev span : String → String → ℕ → TraceSpan
span id above start = record {
  span_id = id;
  parent_span_id = above;
  name = "span";
  kind = "INTERNAL";
  status_code = "OK";
  status_message = "";
  service_name = "demo";
  operation_name = "chat";
  provider = "openai";
  request_model = "gpt-4o";
  response_model = "gpt-4o";
  input_tokens = 10;
  output_tokens = 2;
  total_tokens = 12;
  cost_usd = 5;
  start_offset_ns = start;
  duration_ns = 100;
  tool_name = "";
  prompt_version = "v1";
  retry_attempt = 1;
  ingested_ms = 7;
}

-- A root with a child, and a span whose parent is not there.
abbrev spans : List TraceSpan
spans = span "b" "a" 50 ∷ span "a" "" 0 ∷ span "e" "gone" 10 ∷ []

abbrev tree : SpanTree
tree = build_span_tree spans [] false

-- Two spans that name each other, and one below them.
abbrev ring : Parents
ring = ("x", some "y") ∷ ("y", some "x") ∷ ("z", some "x") ∷ []

follow-ring : (x y : String) → follow ring x ≡ some y → (y ≡ "x") ⊎ (y ≡ "y")
unfolding Dict.get
follow-ring x y e = elim (Bool-cases ("x" == x)) [
  | inl h ↦ inr (ground arith)
  | inr h ↦ elim (Bool-cases ("y" == x)) [
    | inl k ↦ inl (ground arith)
    | inr k ↦ elim (Bool-cases ("z" == x)) [
      | inl l ↦ inl (ground arith)
      | inr l ↦ absurd (ground arith)
    ]
  ]
]

ring_closed : (x y : String) → follow ring x ≡ some y → elem y ("x" ∷ "y" ∷ "z" ∷ []) ≡ true
ring_closed x y e = elim (follow-ring x y e) [ inl h ↦ rw h refl | inr h ↦ rw h refl ]

-- Above every span of the ring is x or y.
Above-ring : {a b : String} → Above ring a b → (b ≡ "x") ⊎ (b ≡ "y")
Above-ring {a} {b} (parent e) = follow-ring a b e
Above-ring (higher {a = c} {b = d} r e) = follow-ring c d e

not-Above_z : ¬ Above ring "z" "z"
not-Above_z a = elim (Above-ring a) [
  | inl e ↦ ground (arith, string_eq.beq_iff "z" "x")
  | inr e ↦ ground (arith, string_eq.beq_iff "z" "y")
]

abbrev nodes : Nodes
nodes = index_nodes false spans

tree_runs :
    ((order_nodes (keys nodes) (link nodes)).0 ≡ "a" ∷ "e" ∷ [])
    × (children_of (order_nodes (keys nodes) (link nodes)).1 "a" ≡ "b" ∷ [])
    × (pre_order 4 (λ x. if x == "a" then "b" ∷ "c" ∷ [] else []) ("a" ∷ "d" ∷ [])
        ≡ "a" ∷ "b" ∷ "c" ∷ "d" ∷ [])
unfolding index_nodes with_pending index_spans link resolve_parents cut_cycles order_nodes attach
    by_start_then_id sort_children children_of pre_order sort insert codes_lt str_lt is_empty
    Dict.get Dict.set Dict.has Dict.modify make_node
tree_runs = (refl, refl, refl)

cut_cycles-Rooted_example : Rooted (cut_cycles 4 ("x" ∷ "y" ∷ "z" ∷ []) [] (ring, [])).0 "z"
cut_cycles-Rooted_example = cut_cycles-Rooted ("x" ∷ "y" ∷ "z" ∷ []) ring [] ring_closed "z" refl

cut_cycles-kept_example :
    follow (cut_cycles 4 ("x" ∷ "y" ∷ "z" ∷ []) [] (ring, [])).0 "z" ≡ some "x"
unfolding Dict.get
cut_cycles-kept_example = cut_cycles-kept ("x" ∷ "y" ∷ "z" ∷ []) ring [] "z" not-Above_z

flatten_visible-build_example :
    (count "d" (flatten_visible tree ("b" ∷ [])) ≤ 1)
    × ((elem "d" (flatten_visible tree ("b" ∷ [])) ≡ true)
        ↔ (Dict.has "d" tree.by_id ≡ true)
          × ((a : String) → Above (links_of spans false) "d" a → elem a ("b" ∷ []) ≡ false))
flatten_visible-build_example = flatten_visible-build spans [] false ("b" ∷ []) "d"

build_span_tree-links_example :
    (count "b" (children_of tree.by_id "a") ≡ (
      if Dict.has "b" tree.by_id && is_parent (follow (links_of spans false) "b") "a"
      then 1
      else 0))
    × (count "b" tree.roots ≡ (
        if Dict.has "b" tree.by_id && not (is_some (follow (links_of spans false) "b"))
        then 1
        else 0))
build_span_tree-links_example = build_span_tree-links spans [] false "a" "b"

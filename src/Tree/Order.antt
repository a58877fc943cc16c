-- ===== src/Tree/Order.antt =====
-- The parts of buildSpanTree and flattenVisible that order the nodes: children and roots, and the
-- walk with an explicit stack. The head of a list is the top of the stack.
pub mod Visits
pub mod Forest
pub mod Attach
use trace_bloom.Base.{
  ℕ, zero, suc, ◌+◌, String, Bool, true, false, ◌&&◌, ◌||◌, Option, none, some, List, [], ◌∷◌, ◌++◌,
  map, ltb, nat_beq, if◌then◌else◌, length, elem, ◌==◌, string_eq, or_else,
}
use trace_bloom.Text.{str_lt}
use trace_bloom.Text.Sort.{sort}
use trace_bloom.Dict
use trace_bloom.Dict.{Dict, keys, map_some}
use trace_bloom.Tree.{SpanNode, SpanTree, Nodes, Parents, follow}

-- The loop that fills `roots` and the children arrays.
unfoldable pub attach : Parents → List String → List String × Nodes → List String × Nodes
attach parents [] state = state
attach parents (id ∷ ids) (roots, nodes) = attach parents ids (elim (follow parents id) [
  | none ↦ (roots ++ id ∷ [], nodes)
  | some parent ↦
      (roots, Dict.modify parent (λ n. record n { children = n.children ++ id ∷ [] }) nodes)
])

abbrev start_of : Nodes → String → ℕ
start_of nodes id = or_else (map_some (λ n. n.span.start_offset_ns) (Dict.get id nodes)) 0

-- byStartThenId(a, b) < 0.
unfoldable pub by_start_then_id : Nodes → String → String → Bool
by_start_then_id nodes a b =
    ltb (start_of nodes a) (start_of nodes b)
    || nat_beq (start_of nodes a) (start_of nodes b) && str_lt a b

-- `node.children.sort(byStartThenId)` for every node.
unfoldable pub sort_children : (String → String → Bool) → Nodes → Nodes
sort_children before [] = []
sort_children before ((id, n) ∷ nodes) =
    (id, record n { children = sort before n.children }) ∷ sort_children before nodes

unfoldable pub children_of : Nodes → String → List String
children_of nodes id = or_else (map_some (λ n. n.children) (Dict.get id nodes)) []

-- The loop that pops a node, notes it, and pushes its children in reverse.
unfoldable pub pre_order : ℕ → (String → List String) → List String → List String
pre_order zero children stack = []
pre_order (suc fuel) children [] = []
pre_order (suc fuel) children (id ∷ stack) = id ∷ pre_order fuel children (children id ++ stack)

-- flattenVisible: a collapsed node pushes no children.
abbrev pub open_children : Nodes → List String → String → List String
open_children nodes collapsed id = if elem id collapsed then [] else children_of nodes id

unfoldable pub flatten_visible : SpanTree → List String → List String
flatten_visible tree collapsed =
    pre_order (suc (length tree.by_id)) (open_children tree.by_id collapsed) tree.roots

-- The writes `child.depth = node.depth + 1`, in the order in which the nodes are popped.
unfoldable pub set_depths : List String → ℕ → Nodes → Nodes
set_depths [] depth nodes = nodes
set_depths (child ∷ children) depth nodes =
    set_depths children depth (Dict.modify child (λ n. record n { depth = depth }) nodes)

unfoldable pub depth_of : Nodes → String → ℕ
depth_of nodes id = or_else (map_some (λ n. n.depth) (Dict.get id nodes)) 0

unfoldable pub assign_depths : List String → Nodes → Nodes
assign_depths [] nodes = nodes
assign_depths (id ∷ order) nodes =
    assign_depths order (set_depths (children_of nodes id) (depth_of nodes id + 1) nodes)

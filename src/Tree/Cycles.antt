-- ===== src/Tree/Cycles.antt =====
-- The part of buildSpanTree that cuts cycles of parent links.
pub mod Ends
pub mod Rooted
pub mod Kept
use trace_bloom.Base.{
  ℕ, zero, suc, ◌+◌, ◌≤◌, ◌<◌, ◌≡◌, refl, ◌⊎◌, inl, inr, ◌≢◌, String, Bool, true, false, ◌||◌,
  Option, none, some, List, [], ◌∷◌, ◌++◌, arith, if◌then◌else◌, length, elem, ◌==◌, string_eq,
  elem-append, Bool-cases, Option-cases,
}
use trace_bloom.Dict
use trace_bloom.Dict.{Dict, keys}
use trace_bloom.Tree.{SpanNode, Nodes, Parents, follow}

-- What one walk from a start leaves: the nodes it passed, and the node at which it met itself.
pub record Walk : Type 0 where
  pub path : List String
  pub cut : Option String

-- The `while` loop. `onPath` of the source holds the nodes of `path`.
unfoldable pub walk : ℕ → List String → Parents → Option String → List String → Walk
walk zero safe parents current path = record { path = path; cut = none }
walk (suc fuel) safe parents none path = record { path = path; cut = none }
walk (suc fuel) safe parents (some current) path =
    let further = walk fuel safe parents (follow parents current) (path ++ current ∷ []) in
    if elem current safe
    then record { path = path; cut = none }
    else if elem current path
    then record { path = path; cut = some current }
    else further

-- `parentOf.set(current, undefined)`.
unfoldable pub cut_parent : Option String → Parents → Parents
cut_parent none parents = parents
cut_parent (some id) parents = Dict.set id none parents

-- `current.orphaned = true`.
unfoldable pub flag_orphan : Option String → Nodes → Nodes
flag_orphan none nodes = nodes
flag_orphan (some id) nodes = Dict.modify id (λ n. record n { orphaned = true }) nodes

-- The loop over `byId.values()`. No walk is longer than the number of nodes.
unfoldable pub cut_cycles : ℕ → List String → List String → Parents × Nodes → Parents × Nodes
unfolding walk cut_parent flag_orphan
cut_cycles fuel [] safe state = state
cut_cycles fuel (start ∷ starts) safe (parents, nodes) =
    let w = walk fuel safe parents (some start) [] in
    cut_cycles fuel starts (safe ++ w.path) (cut_parent w.cut parents, flag_orphan w.cut nodes)

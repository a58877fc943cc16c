-- ===== src/Tree/Build/Shape.antt =====
-- The steps of buildSpanTree that change neither the ids of the nodes nor their children.
use trace_bloom.Base.{
  ℕ, suc, ◌+◌, ◌≡◌, refl, ap, ◌∙◌, String, Option, none, some, List, [], ◌∷◌, ◌++◌, arith, length,
  string_eq,
}
use trace_bloom.Dict
use trace_bloom.Dict.{Dict, keys, map_some}
use trace_bloom.Traces.{SpanEvalResult}
use trace_bloom.Tree.{SpanNode, Nodes, Parents, resolve_parents}
use trace_bloom.Tree.Cycles.{walk, flag_orphan, cut_parent, cut_cycles}
use trace_bloom.Tree.Order.{children_of, set_depths, depth_of, assign_depths, pre_order}
use trace_bloom.Tree.Order.Attach.{children_of-modify}
use trace_bloom.Tree.Rollup.{attach_evals, add_children, roll_up}
use trace_bloom.Tree.Build.{decorate}

pub record SameShape (m n : Nodes) : Type 0 where
  pub ids : keys m ≡ keys n
  pub links : (x : String) → children_of m x ≡ children_of n x

pub SameShape-refl : (n : Nodes) → SameShape n n
SameShape-refl n = record { ids = refl; links = λ x. refl }

pub SameShape-trans : {l m n : Nodes} → SameShape l m → SameShape m n → SameShape l n
SameShape-trans s t = record { ids = s.ids ∙ t.ids; links = λ x. s.links x ∙ t.links x }

pub modify-SameShape :
    (k : String) (f : SpanNode → SpanNode) (nodes : Nodes)
    → ((n : SpanNode) → (f n).children ≡ n.children)
    → SameShape (Dict.modify k f nodes) nodes
modify-SameShape k f nodes same = record {
  ids = Dict.keys-modify k f nodes;
  links = λ x. children_of-modify k x f nodes same;
}

pub resolve_parents-SameShape :
    (by_id nodes : Nodes) → SameShape (resolve_parents by_id nodes).1 nodes
unfolding resolve_parents children_of Dict.get
resolve_parents-SameShape by_id [] = SameShape-refl []
resolve_parents-SameShape by_id ((id, node) ∷ rest) =
    let s = resolve_parents-SameShape by_id rest in
    record { ids = ap (◌∷◌ id) s.ids; links = λ x. ground (arith, s.links x) }

flag_orphan-SameShape : (c : Option String) (nodes : Nodes) → SameShape (flag_orphan c nodes) nodes
unfolding flag_orphan
flag_orphan-SameShape none nodes = SameShape-refl nodes
flag_orphan-SameShape (some id) nodes = modify-SameShape id _ nodes (λ n. refl)

pub cut_cycles-SameShape :
    (fuel : ℕ) (starts safe : List String) (parents : Parents) (nodes : Nodes)
    → SameShape (cut_cycles fuel starts safe (parents, nodes)).1 nodes
unfolding cut_cycles
cut_cycles-SameShape fuel [] safe parents nodes = SameShape-refl nodes
cut_cycles-SameShape fuel (start ∷ starts) safe parents nodes =
    let w = walk fuel safe parents (some start) [] in
    SameShape-trans
      (cut_cycles-SameShape fuel starts (safe ++ w.path) (cut_parent w.cut parents)
        (flag_orphan w.cut nodes))
      (flag_orphan-SameShape w.cut nodes)

set_depths-SameShape :
    (children : List String) (depth : ℕ) (nodes : Nodes)
    → SameShape (set_depths children depth nodes) nodes
unfolding set_depths
set_depths-SameShape [] depth nodes = SameShape-refl nodes
set_depths-SameShape (c ∷ children) depth nodes =
    SameShape-trans (set_depths-SameShape children depth _) (modify-SameShape c _ nodes (λ n. refl))

assign_depths-SameShape :
    (order : List String) (nodes : Nodes) → SameShape (assign_depths order nodes) nodes
unfolding assign_depths
assign_depths-SameShape [] nodes = SameShape-refl nodes
assign_depths-SameShape (id ∷ order) nodes =
    SameShape-trans (assign_depths-SameShape order _)
      (set_depths-SameShape (children_of nodes id) (depth_of nodes id + 1) nodes)

attach_evals-SameShape :
    (results : List SpanEvalResult) (nodes : Nodes) → SameShape (attach_evals results nodes) nodes
unfolding attach_evals
attach_evals-SameShape [] nodes = SameShape-refl nodes
attach_evals-SameShape (r ∷ results) nodes =
    SameShape-trans (attach_evals-SameShape results _)
      (modify-SameShape r.span_id _ nodes (λ n. refl))

pub add_children-SameShape :
    (id : String) (children : List String) (nodes : Nodes)
    → SameShape (add_children id children nodes) nodes
unfolding add_children
add_children-SameShape id [] nodes = SameShape-refl nodes
add_children-SameShape id (c ∷ children) nodes =
    SameShape-trans (add_children-SameShape id children _) (modify-SameShape id _ nodes (λ n. refl))

pub roll_up-SameShape :
    (order : List String) (nodes : Nodes) → SameShape (roll_up order nodes) nodes
unfolding roll_up
roll_up-SameShape [] nodes = SameShape-refl nodes
roll_up-SameShape (id ∷ order) nodes =
    SameShape-trans (add_children-SameShape id (children_of (roll_up order nodes) id) _)
      (roll_up-SameShape order nodes)

-- What is done to the nodes before the pre-order is folded.
pub prepared-SameShape :
    (results : List SpanEvalResult) (order : List String) (nodes : Nodes)
    → SameShape (attach_evals results (assign_depths order nodes)) nodes
prepared-SameShape results order nodes =
    SameShape-trans (attach_evals-SameShape results _) (assign_depths-SameShape order nodes)

pub decorate-SameShape :
    (results : List SpanEvalResult) (roots : List String) (nodes : Nodes)
    → SameShape (decorate results roots nodes) nodes
unfolding decorate
decorate-SameShape results roots nodes =
    let order = pre_order (suc (length nodes)) (children_of nodes) roots in
    SameShape-trans (roll_up-SameShape order _) (prepared-SameShape results order nodes)

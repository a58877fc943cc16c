-- ===== src/Tree/Cycles/Kept.antt =====
-- Only a node on a cycle loses its parent link.
use trace_bloom.Base.{
  ℕ, zero, suc, ◌≡◌, refl, ◌∙◌, ◌⊎◌, inl, inr, String, true, Option, none, some, List, [], ◌∷◌,
  ◌++◌, arith, length, elem, string_eq, elem-append, Bool-cases,
}
use trace_bloom.Tree.{Nodes, Parents, follow}
use trace_bloom.Tree.Cycles.{walk, cut_parent, flag_orphan, cut_cycles}
use trace_bloom.Tree.Cycles.Ends.{Rooted, root, up, follow-cut, follow-cut_ne, At}

-- `a` is a parent of `x`, or a parent of one that is above `x`.
pub data Above (parents : Parents) (x : String) : String → Type 0 where
  parent : {a : String} → follow parents x ≡ some a → Above parents x a
  higher : {a b : String} → Above parents x a → follow parents a ≡ some b → Above parents x b

pub Above-below :
    {parents : Parents} {x y a : String}
    → follow parents x ≡ some y
    → Above parents y a
    → Above parents x a
Above-below e (parent f) = higher (parent e) f
Above-below e (higher r f) = higher (Above-below e r) f

pub Above-cases :
    {parents : Parents} {x y a : String}
    → follow parents x ≡ some y
    → Above parents x a
    → (a ≡ y) ⊎ Above parents y a
Above-cases e (parent f) = inl (ground arith)
Above-cases {parents} {y = y} e (higher {a = c} {b = d} r f) = elim (Above-cases e r) [
  | inl same ↦ inr (parent (rw (← same) f))
  | inr above ↦ inr (higher above f)
]

pub no_root-Above :
    {parents : Parents} {x a : String} → follow parents x ≡ none → Above parents x a → ⊥
no_root-Above e (parent f) = cc
no_root-Above e (higher r f) = no_root-Above e r

-- A node whose chain ends is on no cycle.
pub not-Above-self : {parents : Parents} {x : String} → Rooted parents x → ¬ Above parents x x
not-Above-self (root e) a = no_root-Above e a
not-Above-self {parents} {x} (up {y = y} e r) a =
    not-Above-self r
      (elim (Above-cases e a) [ inl same ↦ parent (ground arith) | inr above ↦ higher above e ])

-- A walk that meets itself does so at a node that is above itself.
walk-cut :
    (fuel : ℕ) (safe path : List String) (parents : Parents) (current : Option String) (c : String)
    → ((x : String) → elem x path ≡ true → At (Above parents x) current)
    → (walk fuel safe parents current path).cut ≡ some c
    → Above parents c c
unfolding walk
walk-cut zero safe path parents current c h e = absurd (cc)
walk-cut (suc fuel) safe path parents none c h e = absurd (cc)
walk-cut (suc fuel) safe path parents (some x) c h e = elim (Bool-cases (elem x safe)) [
  | inl s ↦ absurd (ground arith)
  | inr s ↦ elim (Bool-cases (elem x path)) [
    | inl k ↦ let same : x ≡ c = ground arith in met x c same (h x k)
    | inr k ↦
        walk-cut fuel safe (path ++ x ∷ []) parents (follow parents x) c
          (λ y m.
            next y (follow parents x) refl
              (ground (arith, elem-append y path (x ∷ []), string_eq.beq_iff x y)))
          (ground arith)
  ]
]
  where
    met : (x c : String) → x ≡ c → Above parents x x → Above parents c c
    met x c same a = rw same at a

    next :
        (y : String) (o : Option String)
        → follow parents x ≡ o
        → (elem y path ≡ true) ⊎ (x ≡ y)
        → At (Above parents y) o
    next y none f m = tt
    next y (some z) f (inl m) = higher (h y m) f
    next y (some z) f (inr m) = parent (rw (← m) f)

-- Links that were cut are only missing: what is above a node was above it before.
Above-cut :
    (o : Option String) {parents : Parents} {x a : String}
    → Above (cut_parent o parents) x a
    → Above parents x a
Above-cut o {parents} {x} (parent f) = parent (ground (arith, follow-cut o parents x))
Above-cut o {parents} (higher {a = c} r f) =
    higher (Above-cut o r) (ground (arith, follow-cut o parents c))

kept_from :
    (fuel : ℕ) (starts safe : List String) (parents : Parents) (nodes : Nodes) (x : String)
    → ¬ Above parents x x
    → follow (cut_cycles fuel starts safe (parents, nodes)).0 x ≡ follow parents x
unfolding cut_cycles
kept_from fuel [] safe parents nodes x h = refl
kept_from fuel (start ∷ starts) safe parents nodes x h =
    let w = walk fuel safe parents (some start) [] in
    kept_from fuel starts (safe ++ w.path) (cut_parent w.cut parents) (flag_orphan w.cut nodes) x
      (λ a. h (Above-cut w.cut a))
    ∙ follow-cut_ne w.cut parents x
        (λ e. h (walk-cut fuel safe [] parents (some start) x (λ y m. absurd (cc)) e))

-- A node keeps its parent unless it is its own ancestor: rows without a cycle lose no link.
pub cut_cycles-kept :
    (ids : List String) (parents : Parents) (nodes : Nodes) (x : String)
    → ¬ Above parents x x
    → follow (cut_cycles (suc (length ids)) ids [] (parents, nodes)).0 x ≡ follow parents x
cut_cycles-kept ids parents nodes x h = kept_from (suc (length ids)) ids [] parents nodes x h

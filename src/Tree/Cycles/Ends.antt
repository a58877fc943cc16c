-- ===== src/Tree/Cycles/Ends.antt =====
-- Where one walk up the parent links ends, and what it leaves rooted.
use trace_bloom.Base.{
  ℕ, ◌+◌, ◌≤◌, ◌<◌, ◌≡◌, refl, ◌∙◌, ◌⊎◌, inl, inr, ◌≢◌, String, true, false, ◌||◌, Option, none,
  some, List, [], ◌∷◌, ◌++◌, arith, if◌then◌else◌, length, elem, ◌==◌, string_eq, elem-append,
  Bool-cases, beq_self,
}
use trace_bloom.Dict
use trace_bloom.Dict.{Dict, keys}
use trace_bloom.Tree.{Parents, follow}
use trace_bloom.Tree.Cycles.{Walk, cut_parent}

-- The chain of parents from a node ends.
pub data Rooted (parents : Parents) : String → Type 0 where
  root : {x : String} → follow parents x ≡ none → Rooted parents x
  up : {x y : String} → follow parents x ≡ some y → Rooted parents y → Rooted parents x

-- How many of `ids` are not in `path`: what bounds a walk.
pub missing : List String → List String → ℕ
missing [] path = 0
missing (x ∷ ids) path = (if elem x path then 0 else 1) + missing ids path

pub missing-le : (ids path more : List String) → missing ids (path ++ more) ≤ missing ids path
unfolding missing
missing-le [] path more = omega arith
missing-le (x ∷ ids) path more = ground (arith, missing-le ids path more, elem-append x path more)

pub missing-lt :
    (ids path : List String) (c : String)
    → elem c ids ≡ true
    → elem c path ≡ false
    → missing ids (path ++ c ∷ []) < missing ids path
unfolding missing
missing-lt [] path c h k = absurd (cc)
missing-lt (x ∷ ids) path c h k = ground (
  arith,
  missing-lt ids path c,
  missing-le ids path (c ∷ []),
  elem-append x path (c ∷ []),
  string_eq.beq_iff x c,
  string_eq.beq_iff c x,
)

pub missing-le-length : (ids path : List String) → missing ids path ≤ length ids
unfolding missing
missing-le-length [] path = omega arith
missing-le-length (x ∷ ids) path = ground (arith, missing-le-length ids path)

-- Every parent is one of the nodes.
abbrev pub Closed : List String → Parents → Type 0
Closed ids parents = (x y : String) → follow parents x ≡ some y → elem y ids ≡ true

abbrev no_parent : Option String
no_parent = none

pub follow-cut :
    (c : Option String) (parents : Parents) (x : String)
    → (follow (cut_parent c parents) x ≡ none)
      ⊎ (follow (cut_parent c parents) x ≡ follow parents x)
unfolding cut_parent
follow-cut none parents x = inr refl
follow-cut (some id) parents x = ground (arith, Dict.get-set id x no_parent parents)

follow-cut_self : (c : String) (parents : Parents) → follow (cut_parent (some c) parents) c ≡ none
unfolding cut_parent
follow-cut_self c parents = ground (arith, Dict.get-set_self c no_parent parents)

pub follow-cut_ne :
    (c : Option String) (parents : Parents) (x : String)
    → c ≢ some x
    → follow (cut_parent c parents) x ≡ follow parents x
unfolding cut_parent
follow-cut_ne none parents x h = refl
follow-cut_ne (some id) parents x h =
    ground (arith, Dict.get-set id x no_parent parents, string_eq.beq_iff id x)

pub Closed-cut :
    (ids : List String) (c : Option String) (parents : Parents)
    → Closed ids parents
    → Closed ids (cut_parent c parents)
Closed-cut ids c parents h x y e = ground (arith, follow-cut c parents x, h x y)

-- What holds of a place that a walk may stand at: no node, or one with a property.
abbrev pub At {ℓ} : (String → Type ℓ) → Option String → Type ℓ
At P none = Unit
At P (some x) = P x

-- The nodes that are known to be safe: their chains end, and stay among them.
pub record IsSafe (safe : List String) (parents : Parents) : Type 0 where
  pub rooted : (x : String) → elem x safe ≡ true → Rooted parents x
  pub inside : (x y : String) → elem x safe ≡ true → follow parents x ≡ some y → elem y safe ≡ true

-- One call of `walk`: the end of the walk, with what it says of the place where it began.
pub record Ends (safe path : List String) (parents : Parents) (current : Option String) (w : Walk)
    : Type 0 where
  pub starts : At (λ x. (elem x safe || elem x w.path) ≡ true) current
  pub rooted : At (Rooted (cut_parent w.cut parents)) current
  pub kept : (x : String) → elem x path ≡ true → elem x w.path ≡ true
  pub visited :
      (x : String)
      → elem x w.path ≡ true
      → elem x path ≡ false
      → Rooted (cut_parent w.cut parents) x
  pub inside :
      (x y : String)
      → elem x w.path ≡ true
      → elem x path ≡ false
      → follow parents x ≡ some y
      → (elem y safe || elem y w.path) ≡ true
  pub unsafe : (x : String) → w.cut ≡ some x → elem x safe ≡ false

pub stop_none :
    (safe path : List String) (parents : Parents)
    → Ends safe path parents none (record { path = path; cut = none })
stop_none safe path parents = record {
  starts = tt;
  rooted = tt;
  kept = λ x h. h;
  visited = λ x h k. absurd (cc);
  inside = λ x y h k e. cc;
  unsafe = λ x e. cc;
}

pub stop_safe :
    (safe path : List String) (parents : Parents) (c : String)
    → IsSafe safe parents
    → elem c safe ≡ true
    → Ends safe path parents (some c) (record { path = path; cut = none })
unfolding cut_parent
stop_safe safe path parents c s h = record {
  starts = ground arith;
  rooted = s.rooted c h;
  kept = λ x h. h;
  visited = λ x h k. absurd (cc);
  inside = λ x y h k e. cc;
  unsafe = λ x e. cc;
}

pub stop_cut :
    (safe path : List String) (parents : Parents) (c : String)
    → elem c safe ≡ false
    → elem c path ≡ true
    → Ends safe path parents (some c) (record { path = path; cut = some c })
stop_cut safe path parents c h k = record {
  starts = ground arith;
  rooted = root (follow-cut_self c parents);
  kept = λ x h. h;
  visited = λ x h k. absurd (cc);
  inside = λ x y h k e. cc;
  unsafe = λ x e. ground arith;
}

-- A node whose parent is where the rest of the walk began is rooted with it.
step-Rooted :
    (c : Option String) (parents : Parents) (x : String) (next : Option String)
    → follow parents x ≡ next
    → At (Rooted (cut_parent c parents)) next
    → Rooted (cut_parent c parents) x
step-Rooted c parents x next e r = elim (follow-cut c parents x) [
  | inl gone ↦ root gone
  | inr same ↦ go next e r same
]
  where
    go :
        (next : Option String)
        → follow parents x ≡ next
        → At (Rooted (cut_parent c parents)) next
        → follow (cut_parent c parents) x ≡ follow parents x
        → Rooted (cut_parent c parents) x
    go none e r same = root (same ∙ e)
    go (some y) e r same = up (same ∙ e) r

pub go_on :
    (safe path : List String) (parents : Parents) (c : String) (w : Walk)
    → elem c safe ≡ false
    → elem c path ≡ false
    → Ends safe (path ++ c ∷ []) parents (follow parents c) w
    → Ends safe path parents (some c) w
go_on safe path parents c w h k e = record {
  starts = ground (arith, here);
  rooted = here_rooted;
  kept = λ x p. e.kept x (ground (arith, elem-append x path (c ∷ [])));
  visited = λ x p q. elim (Bool-cases (c == x)) [
    | inl same ↦ let eq : c ≡ x = (string_eq.beq_iff c x).0 same in rw (← eq) here_rooted
    | inr other ↦ e.visited x p (ground (arith, elem-append x path (c ∷ [])))
  ];
  inside = λ x y p q f. elim (Bool-cases (c == x)) [
    | inl same ↦
        let eq : c ≡ x = (string_eq.beq_iff c x).0 same in
        next_inside (follow parents c) e.starts (rw eq f)
    | inr other ↦ e.inside x y p (ground (arith, elem-append x path (c ∷ []))) f
  ];
  unsafe = e.unsafe;
}
  where
    here : elem c w.path ≡ true
    here = e.kept c (ground (arith, elem-append c path (c ∷ []), beq_self c))

    here_rooted : Rooted (cut_parent w.cut parents) c
    here_rooted = step-Rooted w.cut parents c (follow parents c) refl e.rooted

    next_inside :
        (o : Option String) {y : String}
        → At (λ x. (elem x safe || elem x w.path) ≡ true) o
        → o ≡ some y
        → (elem y safe || elem y w.path) ≡ true
    next_inside none a f = cc
    next_inside (some z) a f = ground arith

-- ===== src/Tree/Cycles/Rooted.antt =====
-- After the cycles are cut every chain of parents ends at a root.
use trace_bloom.Base.{
  ℕ, zero, suc, ◌<◌, ◌≡◌, refl, ◌∙◌, inl, inr, String, true, ◌||◌, Option, none, some, List, [],
  ◌∷◌, ◌++◌, arith, length, elem, string_eq, elem-append, Bool-cases, beq_self, All,
}
use trace_bloom.Tree.{Nodes, Parents, follow}
use trace_bloom.Tree.Cycles.{Walk, walk, cut_parent, flag_orphan, cut_cycles}
use trace_bloom.Tree.Cycles.Ends.{
  Rooted, root, up, missing, missing-lt, missing-le-length, Closed, follow-cut, Closed-cut, At,
  IsSafe, Ends, stop_none, stop_safe, stop_cut, go_on,
}

-- A walk with enough fuel ends by itself, and leaves the nodes that it passed rooted.
walk-Ends :
    (ids : List String) (fuel : ℕ) (safe path : List String) (parents : Parents)
    (current : Option String)
    → Closed ids parents
    → IsSafe safe parents
    → At (λ x. elem x ids ≡ true) current
    → missing ids path < fuel
    → Ends safe path parents current (walk fuel safe parents current path)
unfolding walk
walk-Ends ids zero safe path parents current c s i m = elim m [ ]
walk-Ends ids (suc fuel) safe path parents none c s i m = stop_none safe path parents
walk-Ends ids (suc fuel) safe path parents (some x) c s i m = elim (Bool-cases (elem x safe)) [
  | inl h ↦ rw h (stop_safe safe path parents x s h)
  | inr h ↦ elim (Bool-cases (elem x path)) [
    | inl k ↦ rw (h, k) (stop_cut safe path parents x h k)
    | inr k ↦
        rw (h, k)
          (go_on safe path parents x _ h k (
            walk-Ends ids fuel safe (path ++ x ∷ []) parents (follow parents x) c s
              (next (follow parents x) refl) (omega (arith, missing-lt ids path x i k))))
  ]
]
  where
    next : (o : Option String) → follow parents x ≡ o → At (λ y. elem y ids ≡ true) o
    next none e = tt
    next (some y) e = c x y e

module _ (ids safe : List String) (parents : Parents) (w : Walk) (start : String)
    (s : IsSafe safe parents) (e : Ends safe [] parents (some start) w) where
  safe_stays :
      (x : String) → elem x safe ≡ true → Rooted parents x → Rooted (cut_parent w.cut parents) x
  safe_stays x h (root f) = elim (follow-cut w.cut parents x) [
    | inl gone ↦ root gone
    | inr same ↦ root (same ∙ f)
  ]
  safe_stays x h (up {y = z} f r) = elim (follow-cut w.cut parents x) [
    | inl gone ↦ root gone
    | inr same ↦ up (same ∙ f) (safe_stays z (s.inside x z h f) r)
  ]

  IsSafe-walk : IsSafe (safe ++ w.path) (cut_parent w.cut parents)
  IsSafe-walk = record {
    rooted = λ x h. elim (Bool-cases (elem x w.path)) [
      | inl p ↦ e.visited x p refl
      | inr q ↦
          let k : elem x safe ≡ true = ground (arith, elem-append x safe w.path) in
          safe_stays x k (s.rooted x k)
    ];
    inside = λ x y h f.
        let g : follow parents x ≡ some y = ground (arith, follow-cut w.cut parents x) in
        elim (Bool-cases (elem x w.path)) [
          | inl p ↦ ground (arith, e.inside x y p refl g, elem-append y safe w.path)
          | inr q ↦
              ground (arith, s.inside x y, elem-append x safe w.path, elem-append y safe w.path)
        ];
  }

cut_cycles-Rooted_from :
    (ids : List String) (fuel : ℕ) (starts safe : List String) (parents : Parents) (nodes : Nodes)
    → Closed ids parents
    → IsSafe safe parents
    → All (λ x. elem x ids ≡ true) starts
    → length ids < fuel
    → (x : String) → (elem x safe || elem x starts) ≡ true
    → Rooted (cut_cycles fuel starts safe (parents, nodes)).0 x
unfolding cut_cycles
cut_cycles-Rooted_from ids fuel [] safe parents nodes c s a m x h = s.rooted x (ground arith)
cut_cycles-Rooted_from ids fuel (start ∷ starts) safe parents nodes c s a m x h =
    let w = walk fuel safe parents (some start) [] in
    let e : Ends safe [] parents (some start) w =
      walk-Ends ids fuel safe [] parents (some start) c s a.0
        (omega (arith, missing-le-length ids [])) in
    cut_cycles-Rooted_from ids fuel starts (safe ++ w.path) (cut_parent w.cut parents)
      (flag_orphan w.cut nodes) (Closed-cut ids w.cut parents c)
      (IsSafe-walk ids safe parents w start s e) a.1 m x
      (ground (arith, elem-append x safe w.path, e.starts, string_eq.beq_iff start x))

All-elem :
    (xs ys : List String)
    → ((x : String) → elem x xs ≡ true → elem x ys ≡ true)
    → All (λ x. elem x ys ≡ true) xs
All-elem [] ys h = tt
All-elem (x ∷ xs) ys h =
    (h x (ground (arith, beq_self x)), All-elem xs ys (λ z k. h z (ground arith)))

-- Whatever links the rows name, after the loop every node's chain of parents ends at a root, and
-- one more than the number of nodes is fuel enough for each walk.
pub cut_cycles-Rooted :
    (ids : List String) (parents : Parents) (nodes : Nodes)
    → Closed ids parents
    → (x : String) → elem x ids ≡ true
    → Rooted (cut_cycles (suc (length ids)) ids [] (parents, nodes)).0 x
cut_cycles-Rooted ids parents nodes c x h =
    cut_cycles-Rooted_from ids (suc (length ids)) ids [] parents nodes c
      (record { rooted = λ y k. absurd (cc); inside = λ y z k f. cc }) (All-elem ids ids (λ z k. k))
      (omega arith) x (ground arith)

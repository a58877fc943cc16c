-- ===== src/Runner/Workers/Invariant.antt =====
-- The invariant of a run of the pool.
use trace_bloom.Base.{
  ℕ, zero, suc, ◌+◌, ◌-◌, ◌≡◌, refl, ap, ◌∙◌, ◌<◌, Option, none, some, List, [], ◌∷◌, ◌++◌, true,
  false, ◌&&◌, not, ltb, ltb→lt, nat_beq, length, length-append, get_elem?, set, get_elem?-set,
  length-set, keep, if◌then◌else◌, elem, elem-append, nat_eq, Distinct, arith, Bool-cases, inl, inr,
}
use trace_bloom.Runner.Workers.{
  Pool, is_not, take_next, empty_slots, start_loops, finish, settle, Run, started, settled,
}

elem-keep-is_not :
    (i j : ℕ) (xs : List ℕ) → elem j (keep (is_not i) xs) ≡ (elem j xs && not (nat_beq j i))
elem-keep-is_not i j [] = refl
elem-keep-is_not i j (x ∷ xs) = ground (arith, elem-keep-is_not i j xs)

keep-none : (i : ℕ) (xs : List ℕ) → elem i xs ≡ false → keep (is_not i) xs ≡ xs
keep-none i [] h = refl
keep-none i (x ∷ xs) h = ground (arith, keep-none i xs)

length-keep-is_not :
    (i : ℕ) (xs : List ℕ)
    → Distinct xs
    → elem i xs ≡ true
    → suc (length (keep (is_not i) xs)) ≡ length xs
length-keep-is_not i [] d h = absurd (cc)
length-keep-is_not i (x ∷ xs) d h = ground (arith, length-keep-is_not i xs d.1, keep-none i xs)

keep-Distinct : (i : ℕ) (xs : List ℕ) → Distinct xs → Distinct (keep (is_not i) xs)
keep-Distinct i [] d = tt
keep-Distinct i (x ∷ xs) d = ground (arith, keep-Distinct i xs d.1, elem-keep-is_not i x xs)

Distinct-append_single :
    (x : ℕ) (xs : List ℕ) → Distinct xs → elem x xs ≡ false → Distinct (xs ++ x ∷ [])
Distinct-append_single x [] d h = (refl, tt)
Distinct-append_single x (y ∷ xs) d h =
    ground (arith, Distinct-append_single x xs, elem-append y xs (x ∷ []))

module _ {A R : Type 0} (worker : A → Option R) (items : List A) (loops : ℕ) where
  -- What stands in slot i once its worker has settled.
  abbrev pub value : Option A → Option R
  value none = none
  value (some item) = worker item

  abbrev pub slot : Pool R → ℕ → Option (Option R)
  slot p i =
      if ltb i (length items)
      then some (if ltb i p.next && not (elem i p.running) then value (get_elem? items i) else none)
      else none

  pub record Inv (done : List ℕ) (idle : ℕ) (p : Pool R) : Type 0 where
    pub loops_left : length p.running + (p.next - length items) + p.crashed + idle ≡ loops
    pub items_left : length done + (length items - p.next) + length p.running ≡ length items
    pub distinct : Distinct p.running
    pub once : Distinct done
    pub past : (i : ℕ) → elem i done ≡ true → (i < p.next) × (i < length items)
    pub apart : (i : ℕ) → elem i done ≡ true → elem i p.running ≡ false
    pub taken : (i : ℕ) → elem i p.running ≡ true → (i < p.next) × (i < length items)
    pub sized : length p.results ≡ length items
    pub entries : (i : ℕ) → get_elem? p.results i ≡ slot p i

  take_next-Inv :
      (done : List ℕ) (idle : ℕ) (p : Pool R)
      → Inv done (suc idle) p
      → Inv done idle (take_next worker items p)
  unfolding take_next
  take_next-Inv done idle p v = elim (Bool-cases (ltb p.next (length items))) [
    | inl e ↦ rw e (record {
      loops_left = omega (
        arith,
        v.loops_left,
        length-append p.running (p.next ∷ []),
        ltb→lt p.next (length items) e,
      );
      items_left = omega (
        arith,
        v.items_left,
        length-append p.running (p.next ∷ []),
        ltb→lt p.next (length items) e,
      );
      distinct =
          Distinct-append_single p.next p.running v.distinct (ground (arith, v.taken p.next));
      once = v.once;
      past = λ i h. ground (arith, v.past i h);
      apart = λ i h. ground (arith, v.past i h, v.apart i h, elem-append i p.running (p.next ∷ []));
      taken = λ i h. ground (arith, v.taken i, elem-append i p.running (p.next ∷ []));
      sized = v.sized;
      entries = λ i. ground (arith, v.entries i, v.taken i, elem-append i p.running (p.next ∷ []));
    })
    | inr e ↦ rw e (record {
      loops_left = ground (arith, v.loops_left);
      items_left = ground (arith, v.items_left);
      distinct = v.distinct;
      once = v.once;
      past = λ i h. ground (arith, v.past i h);
      apart = v.apart;
      taken = λ i h. ground (arith, v.taken i);
      sized = v.sized;
      entries = λ i. ground (arith, v.entries i, v.taken i);
    })
  ]

  get_elem?-empty_slots :
      (xs : List A) (i : ℕ)
      → get_elem? (empty_slots worker items xs) i ≡ (if ltb i (length xs) then some none else none)
  get_elem?-empty_slots [] i = ground arith
  get_elem?-empty_slots (x ∷ xs) zero = ground arith
  get_elem?-empty_slots (x ∷ xs) (suc i) = get_elem?-empty_slots xs i ∙ ground arith

  length-empty_slots : (xs : List A) → length (empty_slots worker items xs) ≡ length xs
  length-empty_slots [] = refl
  length-empty_slots (x ∷ xs) = ap suc (length-empty_slots xs)

  start_loops-Inv : (m idle : ℕ) → m + idle ≡ loops → Inv [] idle (start_loops worker items m)
  unfolding start_loops
  start_loops-Inv zero idle h = record {
    loops_left = ground (arith, h);
    items_left = omega arith;
    distinct = tt;
    once = tt;
    past = λ i q. absurd (cc);
    apart = λ i q. absurd (cc);
    taken = λ i q. absurd (cc);
    sized = length-empty_slots items;
    entries = λ i. ground (arith, get_elem?-empty_slots items i);
  }
  start_loops-Inv (suc m) idle h =
      take_next-Inv [] idle (start_loops worker items m)
        (start_loops-Inv m (suc idle) (omega arith))

  module _ (done : List ℕ) (i : ℕ) (p : Pool R) (v : Inv done 0 p)
      (running : elem i p.running ≡ true) where
    crash-Inv :
        value (get_elem? items i) ≡ none
        → Inv
            (i ∷ done)
            0
            (record p { running = keep (is_not i) p.running; crashed = p.crashed + 1 })
    crash-Inv failed = record {
      loops_left = omega (arith, v.loops_left, length-keep-is_not i p.running v.distinct running);
      items_left = omega (arith, v.items_left, length-keep-is_not i p.running v.distinct running);
      distinct = keep-Distinct i p.running v.distinct;
      once = (ground (arith, v.apart i), v.once);
      past = λ j h. ground (arith, v.past j, v.taken i running);
      apart = λ j h. ground (arith, v.apart j, elem-keep-is_not i j p.running);
      taken = λ j h. ground (arith, v.taken j, elem-keep-is_not i j p.running);
      sized = v.sized;
      entries = λ j. ground (arith, v.entries j, v.taken i, elem-keep-is_not i j p.running);
    }

    write-Inv :
        (r : R)
        → value (get_elem? items i) ≡ some r
        → Inv
            (i ∷ done)
            1
            (record p { running = keep (is_not i) p.running; results = set p.results i (some r) })
    write-Inv r done = record {
      loops_left = omega (arith, v.loops_left, length-keep-is_not i p.running v.distinct running);
      items_left = omega (arith, v.items_left, length-keep-is_not i p.running v.distinct running);
      distinct = keep-Distinct i p.running v.distinct;
      once = (ground (arith, v.apart i), v.once);
      past = λ j h. ground (arith, v.past j, v.taken i running);
      apart = λ j h. ground (arith, v.apart j, elem-keep-is_not i j p.running);
      taken = λ j h. ground (arith, v.taken j, elem-keep-is_not i j p.running);
      sized = length-set p.results i (some r) ∙ v.sized;
      entries = λ j. ground (
        arith,
        v.entries j,
        v.taken i,
        v.sized,
        elem-keep-is_not i j p.running,
        get_elem?-set p.results i j (some r),
      );
    }

  get_elem?-some : (xs : List A) (i : ℕ) → i < length xs → (item : A) × (get_elem? xs i ≡ some item)
  get_elem?-some [] i h = absurd (omega arith)
  get_elem?-some (x ∷ xs) zero h = (x, refl)
  get_elem?-some (x ∷ xs) (suc i) h = get_elem?-some xs i (omega arith)

  finish-Inv :
      (done : List ℕ) (i : ℕ) (o : Option R) (p : Pool R)
      → Inv done 0 p
      → elem i p.running ≡ true
      → value (get_elem? items i) ≡ o
      → Inv (i ∷ done) 0 (finish worker items i o p)
  unfolding finish
  finish-Inv done i none p v running e = crash-Inv done i p v running e
  finish-Inv done i (some r) p v running e =
      take_next-Inv (i ∷ done) 0
        (record p { running = keep (is_not i) p.running; results = set p.results i (some r) })
        (write-Inv done i p v running r e)

  settle-Inv :
      (done : List ℕ) (i : ℕ) (p : Pool R)
      → Inv done 0 p
      → elem i p.running ≡ true
      → Inv (i ∷ done) 0 (settle worker items i (get_elem? items i) p)
  unfolding settle
  settle-Inv done i p v running =
      let (item, at) = get_elem?-some items i (v.taken i running).1 in
      rw at (finish-Inv done i (worker item) p v running (rw at))

  pub Run-Inv : {done : List ℕ} {p : Pool R} → Run worker items loops done p → Inv done 0 p
  Run-Inv started = start_loops-Inv loops 0 (omega arith)
  Run-Inv (settled done i p run running) = settle-Inv done i p (Run-Inv run) running

-- ===== src/Runner/Workers/Order.antt =====
-- What a run of the pool guarantees.
use trace_bloom.Base.{
  max, ℕ, zero, suc, ◌≡◌, ap, ◌∙◌, ◌≤◌, ◌<◌, Option, none, some, List, [], ◌∷◌, map, ltb, length,
  elem, true, false, get_elem?, get_elem?-ext, if◌then◌else◌, nat_eq, Distinct, arith,
}
use trace_bloom.Runner.Workers.{Pool, bound_of, Run}
use trace_bloom.Runner.Workers.Invariant.{value, Run-Inv}

module _ {A R : Type 0} (worker : A → Option R) (items : List A) (limit : ℕ) where
  get_elem?-map :
      (xs : List A) (i : ℕ)
      → get_elem? (map worker xs) i
        ≡ (if ltb i (length xs) then some (value worker items limit (get_elem? xs i)) else none)
  get_elem?-map [] i = ground arith
  get_elem?-map (x ∷ xs) zero = ground arith
  get_elem?-map (x ∷ xs) (suc i) = get_elem?-map xs i ∙ ground arith

  -- At every moment of a run, at most `limit` workers are awaited, or one where the limit is 0, and
  -- no index is awaited twice. No index has settled twice, one that has settled is not awaited again,
  -- and both are indices of items.
  pub Run-bounded :
      {done : List ℕ} {p : Pool R}
      → Run worker items (bound_of limit (length items)) done p
      → (length p.running ≤ max 1 limit)
        × Distinct p.running
        × Distinct done
        × ((i : ℕ) → elem i done ≡ true → (elem i p.running ≡ false) × (i < length items))
        × ((i : ℕ) → elem i p.running ≡ true → i < length items)
  unfolding bound_of
  Run-bounded run =
      let v = Run-Inv worker items (bound_of limit (length items)) run in
      (
        ground (arith, v.loops_left),
        v.distinct,
        v.once,
        λ i h. (v.apart i h, (v.past i h).1),
        λ i h. (v.taken i h).1,
      )

  -- When no worker is awaited any more and none has thrown, every item has settled exactly once, and
  -- the results are those of mapping the worker over the items, in the order of the items, in
  -- whatever order the workers settled.
  pub Run-results :
      {done : List ℕ} {p : Pool R}
      → Run worker items (bound_of limit (length items)) done p
      → p.running ≡ []
      → p.crashed ≡ 0
      → (length done ≡ length items) × Distinct done × (p.results ≡ map worker items)
  unfolding bound_of
  Run-results {p} run none_running none_crashed =
      let v = Run-Inv worker items (bound_of limit (length items)) run in
      let idle : length p.running ≡ 0 = ap length none_running in
      let past : length items < p.next = ground (arith, v.loops_left) in
      (
        omega (arith, v.items_left),
        v.once,
        get_elem?-ext p.results (map worker items)
            (λ i. v.entries i ∙ ground (arith, get_elem?-map items i, none_running)),
      )

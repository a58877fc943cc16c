-- ===== src/Runner/Workers/Tests.antt =====
-- A run of three items on two loops.
use trace_bloom.Base.{
  ℕ, ◌+◌, ◌≤◌, ◌<◌, elem, true, false, max, ◌≡◌, refl, Option, some, List, [], ◌∷◌, map, length,
  Distinct, nat_eq,
}
use trace_bloom.Runner.Workers.{Pool, Run, started, settled, bound_of, start_loops, settle}
use trace_bloom.Runner.Workers.Order.{Run-bounded, Run-results}

abbrev add_three : ℕ → Option ℕ
add_three n = some (n + 3)

abbrev numbers : List ℕ
numbers = 10 ∷ 20 ∷ 30 ∷ []

abbrev pool_start : Pool ℕ
pool_start = start_loops add_three numbers (bound_of 2 3)

-- The second of two workers settles first.
abbrev pool_end : Pool ℕ
pool_end =
    settle add_three numbers 2 (some 30)
      (settle add_three numbers 0 (some 10) (settle add_three numbers 1 (some 20) pool_start))

Run-three : Run add_three numbers (bound_of 2 3) (2 ∷ 0 ∷ 1 ∷ []) pool_end
unfolding start_loops settle bound_of
Run-three = settled (0 ∷ 1 ∷ []) 2 _ (settled (1 ∷ []) 0 _ (settled [] 1 _ started refl) refl) refl

abbrev order : List ℕ
order = 2 ∷ 0 ∷ 1 ∷ []

Run-bounded_example :
    (length pool_end.running ≤ max 1 2)
    × Distinct pool_end.running
    × Distinct order
    × ((i : ℕ) → elem i order ≡ true → (elem i pool_end.running ≡ false) × (i < length numbers))
    × ((i : ℕ) → elem i pool_end.running ≡ true → i < length numbers)
Run-bounded_example = Run-bounded add_three numbers 2 Run-three

Run-results_example :
    (length order ≡ length numbers) × Distinct order × (pool_end.results ≡ map add_three numbers)
unfolding settle start_loops bound_of
Run-results_example = Run-results add_three numbers 2 Run-three refl refl

-- ===== src/Runner/Workers.antt =====
-- apps/eval-runner/src/concurrency.ts: mapWithConcurrency, as the steps of a pool of `bound` loops.
-- A worker that throws is none: its slot of the array stays empty, and its loop ends.
mod Invariant
pub mod Order
pub mod Tests
use trace_bloom.Base.{
  ℕ, zero, suc, ◌+◌, ◌≡◌, max, min, Option, none, some, List, [], ◌∷◌, ◌++◌, map, Bool, true, false,
  not, ltb, nat_beq, length, get_elem?, set, keep, if◌then◌else◌, elem, nat_eq, ◌==◌,
}

-- `next`, the indices whose workers are awaited, `results`, and the loops that a throw has ended.
pub record Pool {ℓ} (R : Type ℓ) : Type ℓ where
  pub next : ℕ
  pub running : List ℕ
  pub results : List (Option R)
  pub crashed : ℕ

-- `Math.max(1, Math.min(limit, items.length || 1))`, for a limit that is not negative.
unfoldable pub bound_of : ℕ → ℕ → ℕ
bound_of limit n = max 1 (min limit (if nat_beq n 0 then 1 else n))

abbrev pub is_not : ℕ → ℕ → Bool
is_not i j = not (j == i)

module _ {ℓ κ} {A : Type ℓ} {R : Type κ} (worker : A → Option R) (items : List A) where
  -- A pass of a loop, up to its `await` or its `return`.
  unfoldable pub take_next : Pool R → Pool R
  take_next p =
      if ltb p.next (length items)
      then record p { next = p.next + 1; running = p.running ++ p.next ∷ [] }
      else record p { next = p.next + 1 }

  abbrev pub empty_slots : List A → List (Option R)
  empty_slots [] = []
  empty_slots (x ∷ xs) = none ∷ empty_slots xs

  unfoldable pub start_loops : ℕ → Pool R
  unfolding take_next
  start_loops zero = record { next = 0; running = []; results = empty_slots items; crashed = 0 }
  start_loops (suc loops) = take_next (start_loops loops)

  -- The rest of a loop's pass, for what its worker gave.
  unfoldable pub finish : ℕ → Option R → Pool R → Pool R
  unfolding take_next
  finish i none p = record p { running = keep (is_not i) p.running; crashed = p.crashed + 1 }
  finish i (some r) p =
      take_next
        (record p { running = keep (is_not i) p.running; results = set p.results i (some r) })

  -- The worker of index i settles.
  unfoldable pub settle : ℕ → Option A → Pool R → Pool R
  unfolding finish
  settle i none p = p
  settle i (some item) p = finish i (worker item) p

  -- The pools that a run with `loops` loops goes through, with the indices whose workers
  -- settled, newest first.
  pub data Run (loops : ℕ) : List ℕ → Pool R → Type (ℓ ⊔ κ) where
    started : Run loops [] (start_loops loops)
    settled :
        (done : List ℕ) (i : ℕ) (p : Pool R)
        → Run loops done p
        → elem i p.running ≡ true
        → Run loops (i ∷ done) (settle i (get_elem? items i) p)

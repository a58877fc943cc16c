-- ===== src/Sandbox/Tests.antt =====
-- Runs of lib/sandbox.ts on small inputs, and the theorem at an input that meets its hypotheses.
use trace_bloom.Base.{◌≡◌, refl, [], ◌∷◌}
use trace_bloom.Sandbox.{
  SandboxLimits, SandboxState, initial, started, too_many, out_of_budget, day_of, roll_day,
  start_sandbox_run, finish_run, forwarded,
}
use trace_bloom.Sandbox.Budget.{Reachable, begin, start, IsWithin, Reachable-IsWithin}

-- One run at a time, two a day.
abbrev limits : SandboxLimits
limits = record { max_concurrent = 1; daily_budget = 2 }

abbrev after_one : SandboxState
after_one = (start_sandbox_run limits 5 initial).1

abbrev after_two : SandboxState
after_two = (start_sandbox_run limits 9 (finish_run after_one)).1

sandbox_runs :
    ((start_sandbox_run limits 5 initial).0 ≡ started)
    × ((start_sandbox_run limits 6 after_one).0 ≡ too_many)
    × ((start_sandbox_run limits 10 (finish_run after_two)).0 ≡ out_of_budget)
    × ((start_sandbox_run limits 90_000_000 (finish_run after_two)).0 ≡ started)
    × (forwarded "sdk" (("sdk", 1) ∷ ("next.js", 2) ∷ []) ≡ 1 ∷ [])
unfolding start_sandbox_run roll_day day_of initial finish_run forwarded
sandbox_runs = (refl, refl, refl, refl, refl)

after_one-Reachable : Reachable limits after_one 1 (0 ∷ [])
unfolding start_sandbox_run roll_day day_of initial
after_one-Reachable = start 5 begin tt

Reachable-IsWithin_example : IsWithin limits after_one 1 (0 ∷ [])
Reachable-IsWithin_example = Reachable-IsWithin limits after_one-Reachable

-- ===== src/Sandbox.antt =====
-- apps/dashboard/lib/sandbox.ts: who may start a sandbox run. A day is its number since the epoch in
-- place of its ISO text, and the empty text of the initial state is none. The run itself is a library
-- call; of its end the state sees that one run less is active.
pub mod Budget
pub mod Tests
use trace_bloom.Base.{
  ℕ, ◌+◌, ◌-◌, ◌/◌, Bool, true, false, Option, none, some, leb, nat_beq, if◌then◌else◌, List, [],
  ◌∷◌, ◌≤◌, String, ◌==◌, string_eq,
}

-- SandboxLimits, the two that admission reads.
pub record SandboxLimits : Type 0 where
  pub max_concurrent : ℕ
  pub daily_budget : ℕ

-- SandboxState, without the flag of the SDK's initialisation.
pub record SandboxState : Type 0 where
  pub active : ℕ
  pub day : Option ℕ
  pub runs_today : ℕ

unfoldable pub initial : SandboxState
initial = record { active = 0; day = none; runs_today = 0 }

-- The reasons of StartResult, and a start.
pub data Admission : Type 0 where
  started too_many out_of_budget : Admission

-- `new Date(now()).toISOString().slice(0, 10)`.
unfoldable pub day_of : ℕ → ℕ
day_of now_ms = now_ms / 86_400_000

abbrev is_today : Option ℕ → ℕ → Bool
is_today none today = false
is_today (some day) today = nat_beq day today

-- `if (s.day !== today) ...`.
unfoldable pub roll_day : ℕ → SandboxState → SandboxState
roll_day today s = if is_today s.day today then s else record s { day = some today; runs_today = 0 }

-- The head of startSandboxRun.
unfoldable pub start_sandbox_run : SandboxLimits → ℕ → SandboxState → Admission × SandboxState
unfolding roll_day day_of
start_sandbox_run limits now_ms state =
    let s = roll_day (day_of now_ms) state in
    if leb limits.max_concurrent s.active
    then (too_many, s)
    else if leb limits.daily_budget s.runs_today
    then (out_of_budget, s)
    else (started, record s { active = s.active + 1; runs_today = s.runs_today + 1 })

-- The `finally` of a run.
unfoldable pub finish_run : SandboxState → SandboxState
finish_run s = record s { active = s.active - 1 }

-- ScopeFilterSpanProcessor.onEnd: the spans that reach the exporter.
unfoldable pub forwarded : String → List (String × ℕ) → List ℕ
forwarded allowed_scope [] = []
forwarded allowed_scope ((scope, span) ∷ spans) =
    if scope == allowed_scope
    then span ∷ forwarded allowed_scope spans
    else forwarded allowed_scope spans

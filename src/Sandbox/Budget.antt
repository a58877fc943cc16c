-- ===== src/Sandbox/Budget.antt =====
-- Over any sequence of starts and ends, with a clock that does not go back to an earlier day.
use trace_bloom.Base.{
  ℕ, suc, ◌≤◌, ◌<◌, ◌≡◌, refl, Bool, true, false, Option, none, some, List, [], ◌∷◌, arith, leb,
  nat_eq, if◌then◌else◌, count, count-cons, count-nil, Bool-cases, Option-cases, inl, inr,
}
use trace_bloom.Sandbox.{
  SandboxLimits, SandboxState, initial, Admission, started, too_many, out_of_budget, day_of,
  is_today, roll_day, start_sandbox_run, finish_run,
}

abbrev pub is_started : Admission → Bool
is_started started = true
is_started too_many = false
is_started out_of_budget = false

abbrev pub NotAfter : Option ℕ → ℕ → Type 0
NotAfter none today = Unit
NotAfter (some day) today = day ≤ today

-- A state with the runs that are active and the day of each run that was started. A run ends once.
pub data Reachable (limits : SandboxLimits) : SandboxState → ℕ → List ℕ → Type 0 where
  begin : Reachable limits initial 0 []
  start :
      {s : SandboxState} {running : ℕ} {days : List ℕ} (now_ms : ℕ)
      → Reachable limits s running days
      → NotAfter s.day (day_of now_ms)
      → Reachable limits
          (start_sandbox_run limits now_ms s).1
          (if is_started (start_sandbox_run limits now_ms s).0 then suc running else running)
          (if is_started (start_sandbox_run limits now_ms s).0 then day_of now_ms ∷ days else days)
  finish :
      {s : SandboxState} {running : ℕ} {days : List ℕ}
      → Reachable limits s (suc running) days
      → Reachable limits (finish_run s) running days

pub record IsWithin (limits : SandboxLimits) (s : SandboxState) (running : ℕ) (days : List ℕ)
    : Type 0 where
  pub active : s.active ≡ running
  pub limited : running ≤ limits.max_concurrent
  pub today : (d : ℕ) → s.day ≡ some d → s.runs_today ≡ count d days
  pub past : (d e : ℕ) → s.day ≡ some d → d < e → count e days ≡ 0
  pub unset : s.day ≡ none → (e : ℕ) → count e days ≡ 0
  pub budget : (e : ℕ) → count e days ≤ limits.daily_budget

roll_day-IsWithin :
    (limits : SandboxLimits) (today : ℕ) (s : SandboxState) (running : ℕ) (days : List ℕ)
    → NotAfter s.day today
    → IsWithin limits s running days
    → IsWithin limits (roll_day today s) running days × ((roll_day today s).day ≡ some today)
unfolding roll_day
roll_day-IsWithin limits today s running days later w = elim (Option-cases s.day) [
  | inl e ↦
      let fresh : is_today s.day today ≡ false = rw e refl in
      rw fresh (
        record {
          active = w.active;
          limited = w.limited;
          today = λ d h. ground (arith, w.unset e d);
          past = λ d x h l. w.unset e x;
          unset = λ h. absurd (cc);
          budget = w.budget;
        },
        refl,
      )
  | inr (d, e) ↦ elim (Bool-cases (is_today s.day today)) [
    | inl same ↦ rw same (w, ground arith)
    | inr other ↦
        let before : d < today = ground (arith, later) in
        rw other (
          record {
            active = w.active;
            limited = w.limited;
            today = λ x h. ground (arith, w.past d x e);
            past = λ x y h l. ground (arith, w.past d y e);
            unset = λ h. absurd (cc);
            budget = w.budget;
          },
          refl,
        )
  ]
]

start-IsWithin :
    (limits : SandboxLimits) (now_ms : ℕ) (s : SandboxState) (running : ℕ) (days : List ℕ)
    → NotAfter s.day (day_of now_ms)
    → IsWithin limits s running days
    → IsWithin limits
        (start_sandbox_run limits now_ms s).1
        (if is_started (start_sandbox_run limits now_ms s).0 then suc running else running)
        (if is_started (start_sandbox_run limits now_ms s).0 then day_of now_ms ∷ days else days)
unfolding start_sandbox_run
start-IsWithin limits now_ms s running days later w =
    let today = day_of now_ms in
    let (v, at) = roll_day-IsWithin limits today s running days later w in
    let r = roll_day today s in
    elim (Bool-cases (leb limits.max_concurrent r.active)) [
      | inl full ↦ rw full v
      | inr free ↦ elim (Bool-cases (leb limits.daily_budget r.runs_today)) [
        | inl spent ↦ rw (free, spent) v
        | inr left ↦
            rw (free, left)
              (record {
                active = omega (arith, v.active);
                limited = ground (arith, v.active);
                today = λ d h.
                    ground
                      (arith, v.today d h, count-cons d today days, at, nat_eq.beq_iff today d);
                past = λ d e h l.
                    ground
                      (arith, v.past d e h l, count-cons e today days, at, nat_eq.beq_iff today e);
                unset = λ h. absurd (ground (arith, at));
                budget = λ e. ground (
                  arith,
                  v.budget e,
                  v.today today at,
                  count-cons e today days,
                  nat_eq.beq_iff today e,
                );
              })
      ]
    ]

-- With a clock that does not go back to an earlier day, whatever the order of starts and ends: the
-- counter of active runs is the number of runs that were started and have not ended, it stays
-- within maxConcurrent, and on no day are more runs started than dailyBudget.
pub Reachable-IsWithin :
    (limits : SandboxLimits) {s : SandboxState} {running : ℕ} {days : List ℕ}
    → Reachable limits s running days
    → IsWithin limits s running days
unfolding initial finish_run
Reachable-IsWithin limits begin = record {
  active = refl;
  limited = omega arith;
  today = λ d h. absurd (cc);
  past = λ d e h l. absurd (cc);
  unset = λ h e. count-nil e;
  budget = λ e. omega (arith, count-nil e);
}
Reachable-IsWithin limits (start {s} {running} {days} now_ms r later) =
    start-IsWithin limits now_ms s running days later (Reachable-IsWithin limits r)
Reachable-IsWithin limits (finish r) =
    let w = Reachable-IsWithin limits r in
    record {
      active = omega (arith, w.active);
      limited = omega (arith, w.limited);
      today = w.today;
      past = w.past;
      unset = w.unset;
      budget = w.budget;
    }

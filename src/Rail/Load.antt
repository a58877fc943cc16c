-- ===== src/Rail/Load.antt =====
-- The queries that the rail makes, over any sequence of requests and of failures of queries.
use trace_bloom.Base.{
  ℕ, suc, ◌+◌, ◌*◌, ◌≤◌, Option, none, some, List, [], ◌∷◌, length, arith, leb, nat_eq, Bool-cases,
  inl, inr,
}
use trace_bloom.Rail.{Cached, Rail, no_rail, is_current, is_result, running_traces, query_failed}

-- A request so many milliseconds after the one before it, or the failure of a query.
pub data RailEvent : Type 0 where
  request : ℕ → RailEvent
  failure : ℕ → RailEvent

pub record Moment : Type 0 where
  pub now : ℕ
  pub failures : ℕ
  pub rail : Rail

abbrev step : RailEvent → Moment → Moment
step (request wait) m = record {
  now = m.now + wait;
  failures = m.failures;
  rail = running_traces (m.now + wait) m.rail;
}
step (failure query) m = record m { failures = suc m.failures; rail = query_failed query m.rail }

unfoldable pub after : List RailEvent → Moment → Moment
after [] m = m
after (e ∷ events) m = after events (step e m)

-- Every query but the last is paid for by the time up to the last one, or by a failure.
abbrev Paid : ℕ → ℕ → ℕ → ℕ → Option Cached → Type 0
Paid begin queries now failures none = 2000 * queries + begin ≤ 2000 * failures + now
Paid begin queries now failures (some cache) =
    (2000 * queries + begin ≤ 2000 * failures + 2000 + cache.at) × (cache.at ≤ now)

abbrev IsPaid : ℕ → Moment → Type 0
IsPaid begin m = Paid begin (length m.rail.queries) m.now m.failures m.rail.cache

running_traces-Paid :
    (begin now wait failures : ℕ) (queries : List ℕ) (cache : Option Cached)
    → Paid begin (length queries) now failures cache
    → let rail = running_traces (now + wait) (record { queries = queries; cache = cache }) in
      Paid begin (length rail.queries) (now + wait) failures rail.cache
unfolding running_traces is_current
running_traces-Paid begin now wait failures queries none p = (omega (arith, p), omega arith)
running_traces-Paid begin now wait failures queries (some cache) p =
    elim (Bool-cases (leb (cache.at + 2000) (now + wait))) [
      | inl late ↦ rw late (ground (arith, p.0, late), omega arith)
      | inr early ↦ rw early (p.0, omega (arith, p.1))
    ]

query_failed-Paid :
    (begin now failures query : ℕ) (queries : List ℕ) (cache : Option Cached)
    → Paid begin (length queries) now failures cache
    → let rail = query_failed query (record { queries = queries; cache = cache }) in
      Paid begin (length rail.queries) now (suc failures) rail.cache
unfolding query_failed is_result
query_failed-Paid begin now failures query queries none p = omega (arith, p)
query_failed-Paid begin now failures query queries (some cache) p =
    elim (Bool-cases (is_result query (some cache))) [
      | inl own ↦ rw own (omega (arith, p.0, p.1))
      | inr other ↦ rw other (omega (arith, p.0), p.1)
    ]

step-IsPaid : (begin : ℕ) (e : RailEvent) (m : Moment) → IsPaid begin m → IsPaid begin (step e m)
step-IsPaid begin (request wait) m p =
    running_traces-Paid begin m.now wait m.failures m.rail.queries m.rail.cache p
step-IsPaid begin (failure query) m p =
    query_failed-Paid begin m.now m.failures query m.rail.queries m.rail.cache p

after-IsPaid :
    (begin : ℕ) (events : List RailEvent) (m : Moment)
    → IsPaid begin m
    → IsPaid begin (after events m)
unfolding after
after-IsPaid begin [] m p = p
after-IsPaid begin (e ∷ events) m p = after-IsPaid begin events (step e m) (step-IsPaid begin e m p)

Paid-bound :
    (begin queries now failures : ℕ) (cache : Option Cached)
    → Paid begin queries now failures cache
    → 2000 * queries + begin ≤ 2000 * (failures + 1) + now
Paid-bound begin queries now failures none p = omega (arith, p)
Paid-bound begin queries now failures (some cache) p = omega (arith, p.0, p.1)

-- However many requests arrive, by a clock that does not go back, and whenever queries fail: from
-- the first moment on, the queries that are made are at most one, one for each failure, and one for
-- each 2000 ms that passed.
pub after-queries :
    (begin : ℕ) (events : List RailEvent)
    → let end = after events (record { now = begin; failures = 0; rail = no_rail }) in
      2000 * length end.rail.queries + begin ≤ 2000 * (end.failures + 1) + end.now
after-queries begin events =
    let end = after events (record { now = begin; failures = 0; rail = no_rail }) in
    Paid-bound begin (length end.rail.queries) end.now end.failures end.rail.cache (
      after-IsPaid begin events (record { now = begin; failures = 0; rail = no_rail })
        (omega arith))

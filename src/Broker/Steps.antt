-- ===== src/Broker/Steps.antt =====
-- The steps that a poller's timer and its fetches cause.
use trace_bloom.Base.{
  ℕ, ◌+◌, ◌-◌, Bool, true, false, ◌&&◌, ◌||◌, not, Option, none, some, List, [], ◌∷◌, leb,
  if◌then◌else◌, nat_eq,
}
use trace_bloom.Dict
use trace_bloom.Live.{LiveDelta}
use trace_bloom.Broker.{BrokerConfig, TracePoller, LiveBroker, detach}
use trace_bloom.Broker.Poller.{trim_boundary_replays}

abbrev pub update : ℕ → (TracePoller → TracePoller) → LiveBroker → LiveBroker
update pid f b = record b { objects = Dict.modify pid f b.objects }

abbrev pub subscribers_of : ℕ → LiveBroker → List ℕ
subscribers_of pid b = elim (Dict.get pid b.objects) [ none ↦ [] | some p ↦ p.subscribers ]

-- broadcast: every subscriber is sent the delta, and the ones whose `send` returned false leave.
unfoldable pub drop_failed : (ℕ → Bool) → ℕ → List ℕ → LiveBroker → LiveBroker
unfolding detach
drop_failed accepts pid [] b = b
drop_failed accepts pid (s ∷ subscribers) b =
    drop_failed accepts pid subscribers (if accepts s then b else detach pid s b)

-- endAll and closeAll: every subscriber is told, and leaves.
unfoldable pub drop_all : ℕ → List ℕ → LiveBroker → LiveBroker
unfolding detach
drop_all pid [] b = b
drop_all pid (s ∷ subscribers) b = drop_all pid subscribers (detach pid s b)

abbrev pub is_quiet : LiveDelta → Bool
is_quiet delta = elim delta.spans [
  | [] ↦ elim delta.evals [ [] ↦ true | e ∷ es ↦ false ]
  | s ∷ ss ↦ false
]

-- The timer fires: `timer` is unset, and tick begins, which does nothing on a stopped poller.
unfoldable pub tick_start : ℕ → LiveBroker → LiveBroker
tick_start pid b =
    update pid (λ p. record p { timer = none; polling = if p.stopped then p.polling else true }) b

-- What tick sets before it broadcasts.
unfoldable pub take_delta : LiveDelta → ℕ → TracePoller → TracePoller
unfolding trim_boundary_replays
take_delta fetched now p =
    let (delta, q) = trim_boundary_replays fetched p in
    record q {
      consecutive_errors = 0;
      head = delta.cursor;
      root_seen = p.root_seen || delta.root_seen;
      last_data_at = if is_quiet delta then p.last_data_at else now;
    }

abbrev pub trimmed : LiveDelta → Option TracePoller → Bool
trimmed fetched none = true
trimmed fetched (some p) = is_quiet (trim_boundary_replays fetched p).0

-- The `try` block, for a fetch that returned.
unfoldable pub tick_fetched : (ℕ → Bool) → LiveDelta → ℕ → ℕ → LiveBroker → LiveBroker
unfolding take_delta drop_failed trim_boundary_replays
tick_fetched accepts fetched now pid b =
    let next = update pid (take_delta fetched now) (record b { fetch_count = b.fetch_count + 1 }) in
    if trimmed fetched (Dict.get pid b.objects)
    then next
    else drop_failed accepts pid (subscribers_of pid b) next

-- The timer of a poller that goes on: schedule.
abbrev pub schedule : BrokerConfig → TracePoller → TracePoller
schedule c p = record p { timer = some (if p.root_seen then c.slow_poll_ms else c.fast_poll_ms) }

-- `endAll('complete')` or `endAll('idle')`.
abbrev pub is_over : BrokerConfig → ℕ → TracePoller → Bool
is_over c now p =
    p.root_seen && leb c.settled_end_ms (now - p.last_data_at)
    || not p.root_seen && leb c.dead_end_ms (now - p.last_data_at)

-- What follows the `finally` block.
unfoldable pub tick_end : BrokerConfig → ℕ → ℕ → LiveBroker → LiveBroker
unfolding drop_all
tick_end c now pid b = elim (Dict.get pid b.objects) [
  | none ↦ b
  | some p ↦
      if p.stopped
      then b
      else if is_over c now p
      then drop_all pid p.subscribers b
      else update pid (schedule c) b
]

abbrev pub not_polling : ℕ → LiveBroker → LiveBroker
not_polling pid b = update pid (λ p. record p { polling = false }) b

-- The `catch` block, and what follows it: too many errors in a row close all.
unfoldable pub tick_failed : BrokerConfig → ℕ → ℕ → LiveBroker → LiveBroker
unfolding drop_all tick_end
tick_failed c now pid b = elim (Dict.get pid b.objects) [
  | none ↦ b
  | some p ↦
      let next = update pid (λ q. record q { consecutive_errors = q.consecutive_errors + 1 }) b in
      if leb c.max_consecutive_errors (p.consecutive_errors + 1)
      then not_polling pid (drop_all pid p.subscribers next)
      else tick_end c now pid (not_polling pid next)
]

-- tick, from the end of its fetch: a delta, or an error.
unfoldable pub tick_done :
    BrokerConfig → (ℕ → Bool) → Option LiveDelta → ℕ → ℕ → LiveBroker → LiveBroker
unfolding tick_fetched tick_end tick_failed
tick_done c accepts none now pid b = tick_failed c now pid b
tick_done c accepts (some fetched) now pid b =
    tick_end c now pid (not_polling pid (tick_fetched accepts fetched now pid b))

-- catchUp, from the end of its fetch: a delta and what `send` returned, or an error.
unfoldable pub catch_up_done : (ℕ → Bool) → Option LiveDelta → ℕ → ℕ → LiveBroker → LiveBroker
unfolding detach
catch_up_done accepts none pid s b = detach pid s b
catch_up_done accepts (some delta) pid s b =
    let next = record b { fetch_count = b.fetch_count + 1 } in
    if is_quiet delta || accepts s then next else detach pid s next

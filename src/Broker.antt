-- ===== src/Broker.antt =====
-- apps/dashboard/lib/live-broker.ts: the broker that shares one poller of a trace among its
-- subscribers. The pollers are objects in a store, and `registry` is the map `pollers` from trace ids
-- to them. A subscriber is a connection, here a number; what its `send` returns is an argument of
-- the operations that call it, and so are the clock and what a fetch of deltas returns.
pub mod Poller
pub mod Steps
pub mod Bounds
pub mod Leaves
pub mod Joins
pub mod Reach
pub mod Replays
pub mod Tests
use trace_bloom.Base.{
  ℕ, ◌+◌, ◌-◌, String, Bool, true, false, ◌&&◌, ◌||◌, not, Option, none, some, List, [], ◌∷◌, ◌++◌,
  leb, ltb, nat_beq, if◌then◌else◌, length, elem, nat_eq, string_eq, is_some, or_else,
}
use trace_bloom.Dict
use trace_bloom.Dict.{Dict, map_some}
use trace_bloom.Traces.{LiveCursor}

-- BrokerConfig, without the function that fetches.
pub record BrokerConfig : Type 0 where
  pub fast_poll_ms : ℕ
  pub slow_poll_ms : ℕ
  pub settled_end_ms : ℕ
  pub dead_end_ms : ℕ
  pub max_consecutive_errors : ℕ
  pub max_subscribers : ℕ
  pub max_subscribers_per_trace : ℕ

-- The fields of TracePoller. `timer` is the delay of the timer that is set.
pub record TracePoller : Type 0 where
  pub trace_id : String
  pub subscribers : List ℕ
  pub timer : Option ℕ
  pub polling : Bool
  pub stopped : Bool
  pub head : LiveCursor
  pub root_seen : Bool
  pub last_data_at : ℕ
  pub consecutive_errors : ℕ
  pub span_boundary : List String
  pub eval_boundary : List (List ℕ)

pub record LiveBroker : Type 0 where
  pub objects : Dict ℕ TracePoller
  pub registry : Dict String ℕ
  pub subscriber_count : ℕ
  pub fetch_count : ℕ

-- `new TracePoller(...)`.
unfoldable pub new_poller : String → LiveCursor → ℕ → TracePoller
new_poller trace_id cursor now = record {
  trace_id = trace_id;
  subscribers = [];
  timer = none;
  polling = false;
  stopped = false;
  head = cursor;
  root_seen = false;
  last_data_at = now;
  consecutive_errors = 0;
  span_boundary = [];
  eval_boundary = [];
}

-- `Set.prototype.delete` and `Set.prototype.add`.
unfoldable pub remove : ℕ → List ℕ → List ℕ
remove x [] = []
remove x (y ∷ ys) = if nat_beq y x then ys else y ∷ remove x ys

unfoldable pub add_to : ℕ → List ℕ → List ℕ
add_to x ys = if elem x ys then ys else ys ++ x ∷ []

abbrev pub size_of : Option TracePoller → ℕ
size_of none = 0
size_of (some p) = length p.subscribers

-- removePoller: only if the trace id still refers to this poller.
unfoldable pub remove_poller : String → ℕ → LiveBroker → LiveBroker
remove_poller trace_id pid b = elim (Dict.get trace_id b.registry) [
  | none ↦ b
  | some other ↦
      if nat_beq other pid then record b { registry = Dict.delete trace_id b.registry } else b
]

-- detach, on the poller: the subscriber is gone, and with the last one the poller stops.
unfoldable pub drop_subscriber : ℕ → TracePoller → TracePoller
unfolding remove
drop_subscriber s p =
    let left = remove s p.subscribers in
    if nat_beq (length left) 0
    then record p { subscribers = left; stopped = true; timer = none }
    else record p { subscribers = left }

-- A subscriber that is there leaves: onDetached, and stop where it was the last.
unfoldable pub let_go : ℕ → ℕ → TracePoller → LiveBroker → LiveBroker
unfolding drop_subscriber remove_poller
let_go pid s p b =
    let next = record b {
      objects = Dict.modify pid (drop_subscriber s) b.objects;
      subscriber_count = b.subscriber_count - 1;
    } in
    if nat_beq (length (remove s p.subscribers)) 0 then remove_poller p.trace_id pid next else next

-- detach.
unfoldable pub detach : ℕ → ℕ → LiveBroker → LiveBroker
unfolding let_go
detach pid s b = elim (Dict.get pid b.objects) [
  | none ↦ b
  | some p ↦ if elem s p.subscribers then let_go pid s p b else b
]

-- `this.pollers.get(traceId)`.
unfoldable pub poller_of : String → LiveBroker → Option TracePoller
poller_of trace_id b = elim (Dict.get trace_id b.registry) [
  | none ↦ none
  | some pid ↦ Dict.get pid b.objects
]

-- canAccept.
unfoldable pub can_accept : BrokerConfig → String → LiveBroker → Bool
unfolding poller_of
can_accept c trace_id b =
    ltb b.subscriber_count c.max_subscribers
    && ltb (size_of (poller_of trace_id b)) c.max_subscribers_per_trace

-- attach, on the poller: a timer is set if none is, and no fetch is running.
unfoldable pub attach_to : ℕ → TracePoller → TracePoller
unfolding add_to
attach_to s p = record p {
  subscribers = add_to s p.subscribers;
  timer = if not (is_some p.timer) && (not p.polling && not p.stopped) then some 0 else p.timer;
}

-- `cursor.spanMs < this.head.spanMs || ...`: whether attach starts a catch-up fetch.
unfoldable pub is_behind : LiveCursor → TracePoller → Bool
is_behind cursor p = ltb cursor.span_ms p.head.span_ms || ltb cursor.eval_ms p.head.eval_ms

-- The poller of a trace, made and registered if there is none.
unfoldable pub ensure_poller : String → LiveCursor → ℕ → LiveBroker → ℕ × LiveBroker
unfolding new_poller
ensure_poller trace_id cursor now b = elim (Dict.get trace_id b.registry) [
  | some pid ↦ (pid, b)
  | none ↦
      let pid = length b.objects in
      (
        pid,
        record b {
          objects = b.objects ++ (pid, new_poller trace_id cursor now) ∷ [];
          registry = Dict.set trace_id pid b.registry;
        },
      )
]

-- The rest of subscribe, for a subscriber that is let in.
unfoldable pub join_poller : LiveCursor → ℕ → ℕ × LiveBroker → Option (ℕ × Bool) × LiveBroker
unfolding attach_to is_behind
join_poller cursor s (pid, b) = (
  some (pid, or_else (map_some (is_behind cursor) (Dict.get pid b.objects)) false),
  record b {
    objects = Dict.modify pid (attach_to s) b.objects;
    subscriber_count = b.subscriber_count + 1;
  },
)

-- subscribe: the poller that was joined, and whether it starts a catch-up; none for capacity.
unfoldable pub subscribe :
    BrokerConfig → String → LiveCursor → ℕ → ℕ → LiveBroker → Option (ℕ × Bool) × LiveBroker
unfolding can_accept ensure_poller join_poller
subscribe c trace_id cursor s now b =
    if can_accept c trace_id b
    then join_poller cursor s (ensure_poller trace_id cursor now b)
    else (none, b)

-- The subscription that a client holds: `done` makes its unsubscribe idempotent.
pub record Subscription : Type 0 where
  pub poller : ℕ
  pub subscriber : ℕ
  pub done : Bool

unfoldable pub unsubscribe : Subscription × LiveBroker → Subscription × LiveBroker
unfolding detach
unsubscribe (sub, b) =
    if sub.done then (sub, b) else (record sub { done = true }, detach sub.poller sub.subscriber b)

-- ===== src/Broker/Tests.antt =====
-- Runs of lib/live-broker.ts on small inputs, and the theorems at inputs that meet their hypotheses.
use trace_bloom.Base.{
  ℕ, ◌≤◌, ◌<◌, ◌≡◌, refl, ◌↔◌, ◌⊎◌, true, false, [], ◌∷◌, none, some, arith, length, nat_eq,
  string_eq,
}
use mathlib.Core.List.{Memᴰ}
use trace_bloom.Dict
use trace_bloom.Dict.{values, keys}
use trace_bloom.Traces.{LiveCursor}
use trace_bloom.Live.{LiveSpan, LiveDelta}
use trace_bloom.Broker.{
  BrokerConfig, TracePoller, LiveBroker, new_poller, remove, add_to, attach_to, is_behind,
  poller_of, can_accept, ensure_poller, join_poller, subscribe, drop_subscriber, let_go,
  remove_poller, detach,
}
use trace_bloom.Broker.Poller.{is_fresh_span, note_spans, note_evals, trim_boundary_replays}
use trace_bloom.Broker.Steps.{
  tick_start, take_delta, tick_fetched, tick_end, tick_done, drop_failed,
}
use trace_bloom.Broker.Bounds.{IsBroker}
use trace_bloom.Broker.Joins.{IsNew}
use trace_bloom.Broker.Reach.{joined, no_pollers, Reachable, start, step, Reachable-IsBroker}
use trace_bloom.Broker.Replays.{was_delivered, trim_boundary_replays-next}

abbrev config : BrokerConfig
config = record {
  fast_poll_ms = 800;
  slow_poll_ms = 2_500;
  settled_end_ms = 300_000;
  dead_end_ms = 600_000;
  max_consecutive_errors = 5;
  max_subscribers = 2;
  max_subscribers_per_trace = 1;
}

abbrev origin : LiveCursor
origin = record { span_ms = 0; eval_ms = 0 }

abbrev one : LiveBroker
one = (subscribe config "t" origin 7 100 no_pollers).1

abbrev span : LiveSpan
span = record {
  span_id = "a";
  parent_span_id = "";
  name = "span";
  kind = "INTERNAL";
  status_code = "OK";
  status_message = "";
  service_name = "demo";
  operation_name = "chat";
  provider = "openai";
  request_model = "gpt-4o";
  response_model = "gpt-4o";
  input_tokens = 10;
  output_tokens = 2;
  total_tokens = 12;
  cost_usd = 5;
  start_ns = 1_000;
  duration_ns = 100;
  tool_name = "";
  prompt_version = "v1";
  retry_attempt = 0;
  ingested_ms = 7;
}

abbrev delta : LiveDelta
delta = record {
  spans = span ∷ [];
  evals = [];
  cursor = record { span_ms = 7; eval_ms = 0 };
  root_seen = true;
}

abbrev fresh_poller : TracePoller
fresh_poller = new_poller "t" origin 100

-- The trace cap refuses a second subscriber, another trace takes one, and the last one to leave
-- frees the trace.
broker_runs :
    (one.subscriber_count ≡ 1)
    × ((subscribe config "t" origin 8 100 one).0 ≡ none)
    × ((subscribe config "u" origin 8 100 one).1.registry ≡ ("t", 0) ∷ ("u", 1) ∷ [])
    × ((detach 0 7 one).registry ≡ [])
    × ((tick_done config (λ s. false) (some delta) 200 0 (tick_start 0 one)).registry ≡ [])
unfolding subscribe can_accept poller_of ensure_poller new_poller join_poller attach_to add_to
    is_behind no_pollers detach let_go drop_subscriber remove remove_poller tick_start tick_done
    tick_fetched tick_end take_delta drop_failed trim_boundary_replays is_fresh_span note_spans
    note_evals Dict.get Dict.set Dict.delete Dict.modify
broker_runs = (refl, refl, refl, refl, refl)

-- A row that was delivered is not delivered again.
replay_run : (trim_boundary_replays delta (take_delta delta 150 fresh_poller)).0.spans ≡ []
unfolding new_poller take_delta trim_boundary_replays is_fresh_span note_spans
replay_run = refl

nobody-IsNew : IsNew 7 no_pollers
unfolding no_pollers Dict.get
nobody-IsNew pid p e = absurd (cc)

one-Reachable : Reachable config one
one-Reachable = step start (joined "t" origin 7 100 nobody-IsNew)

Reachable-IsBroker_example : IsBroker config one
Reachable-IsBroker_example = Reachable-IsBroker config one-Reachable

abbrev joined_poller : TracePoller
joined_poller = attach_to 7 fresh_poller

one-found : Dict.get 0 one.objects ≡ some joined_poller
unfolding subscribe can_accept poller_of ensure_poller new_poller join_poller attach_to add_to
    is_behind no_pollers Dict.get Dict.modify
one-found = refl

joined-size : 1 ≤ length joined_poller.subscribers
unfolding attach_to new_poller add_to
joined-size = omega arith

abbrev poller_id : ℕ
poller_id = 0

trim_boundary_replays-next_example :
    Memᴰ span (trim_boundary_replays delta (take_delta delta 150 fresh_poller)).0.spans
    ↔ Memᴰ span delta.spans
      × ((7 < span.ingested_ms) ⊎ (was_delivered fresh_poller delta "a" ≡ false))
trim_boundary_replays-next_example = trim_boundary_replays-next fresh_poller delta delta 150 span

-- ===== src/Broker/Reach.antt =====
-- Every state that the broker can reach, whatever its clients do and its fetches return.
use trace_bloom.Base.{
  ℕ, ◌+◌, refl, inl, inr, Bool, true, false, String, Option, none, some, List, [], ◌∷◌, arith,
  if◌then◌else◌, leb, ◌||◌, nat_eq, string_eq, Bool-cases, Option-cases,
}
use trace_bloom.Dict
use trace_bloom.Dict.{Dict}
use trace_bloom.Traces.{LiveCursor}
use trace_bloom.Live.{LiveDelta}
use trace_bloom.Broker.{BrokerConfig, LiveBroker, detach, subscribe}
use trace_bloom.Broker.Poller.{trim_boundary_replays}
use trace_bloom.Broker.Steps.{
  subscribers_of, drop_failed, drop_all, is_quiet, tick_start, take_delta, tick_fetched, tick_end,
  tick_failed, tick_done, catch_up_done, trimmed, is_over, schedule, not_polling,
}
use trace_bloom.Broker.Bounds.{IsBroker, total, update-IsBroker}
use trace_bloom.Broker.Leaves.{detach-IsBroker}
use trace_bloom.Broker.Joins.{IsNew, subscribe-IsBroker}

-- One event: a client comes or goes, a timer fires, a fetch of a poller or of a catch-up ends.
pub data Step (c : BrokerConfig) (b : LiveBroker) : LiveBroker → Type 0 where
  joined :
      (trace_id : String) (cursor : LiveCursor) (s now : ℕ)
      → IsNew s b
      → Step c b (subscribe c trace_id cursor s now b).1
  left : (pid s : ℕ) → Step c b (detach pid s b)
  fired : (pid : ℕ) → Step c b (tick_start pid b)
  fetched :
      (accepts : ℕ → Bool) (result : Option LiveDelta) (now pid : ℕ)
      → Step c b (tick_done c accepts result now pid b)
  caught_up :
      (accepts : ℕ → Bool) (result : Option LiveDelta) (pid s : ℕ)
      → Step c b (catch_up_done accepts result pid s b)

-- `new LiveBroker(...)`.
unfoldable pub no_pollers : LiveBroker
no_pollers = record { objects = []; registry = []; subscriber_count = 0; fetch_count = 0 }

pub data Reachable (c : BrokerConfig) : LiveBroker → Type 0 where
  start : Reachable c no_pollers
  step : {a b : LiveBroker} → Reachable c a → Step c a b → Reachable c b

drop_all-IsBroker :
    (c : BrokerConfig) (pid : ℕ) (subscribers : List ℕ) (b : LiveBroker)
    → IsBroker c b
    → IsBroker c (drop_all pid subscribers b)
unfolding drop_all
drop_all-IsBroker c pid [] b i = i
drop_all-IsBroker c pid (s ∷ subscribers) b i =
    drop_all-IsBroker c pid subscribers (detach pid s b) (detach-IsBroker c pid s b i)

drop_failed-IsBroker :
    (c : BrokerConfig) (accepts : ℕ → Bool) (pid : ℕ) (subscribers : List ℕ) (b : LiveBroker)
    → IsBroker c b
    → IsBroker c (drop_failed accepts pid subscribers b)
unfolding drop_failed
drop_failed-IsBroker c accepts pid [] b i = i
drop_failed-IsBroker c accepts pid (s ∷ subscribers) b i = elim (Bool-cases (accepts s)) [
  | inl h ↦ rw h (drop_failed-IsBroker c accepts pid subscribers b i)
  | inr h ↦ rw h (
      drop_failed-IsBroker c accepts pid subscribers (detach pid s b) (detach-IsBroker c pid s b i))
]

not_polling-IsBroker :
    (c : BrokerConfig) (pid : ℕ) (b : LiveBroker) → IsBroker c b → IsBroker c (not_polling pid b)
not_polling-IsBroker c pid b i =
    update-IsBroker c pid (λ p. record p { polling = false }) b b.fetch_count (λ p. refl)
      (λ p. refl) i

tick_end-IsBroker :
    (c : BrokerConfig) (now pid : ℕ) (b : LiveBroker)
    → IsBroker c b
    → IsBroker c (tick_end c now pid b)
unfolding tick_end
tick_end-IsBroker c now pid b i = elim (Option-cases (Dict.get pid b.objects)) [
  | inl e ↦ rw (e, tick_end) i
  | inr (p, e) ↦ elim (Bool-cases p.stopped) [
    | inl h ↦ rw (e, tick_end, h) i
    | inr h ↦ elim (Bool-cases (is_over c now p)) [
      | inl o ↦ rw (e, tick_end, h, o) (drop_all-IsBroker c pid p.subscribers b i)
      | inr o ↦
          rw (e, tick_end, h, o)
            (update-IsBroker c pid (schedule c) b b.fetch_count (λ q. refl) (λ q. refl) i)
    ]
  ]
]

tick_fetched-IsBroker :
    (c : BrokerConfig) (accepts : ℕ → Bool) (delta : LiveDelta) (now pid : ℕ) (b : LiveBroker)
    → IsBroker c b
    → IsBroker c (tick_fetched accepts delta now pid b)
unfolding tick_fetched take_delta trim_boundary_replays
tick_fetched-IsBroker c accepts delta now pid b i =
    let next =
      update-IsBroker c pid (take_delta delta now) b (b.fetch_count + 1) (λ p. refl) (λ p. refl)
        i in
    elim (Bool-cases (trimmed delta (Dict.get pid b.objects))) [
      | inl h ↦ rw h next
      | inr h ↦ rw h (drop_failed-IsBroker c accepts pid (subscribers_of pid b) _ next)
    ]

tick_failed-IsBroker :
    (c : BrokerConfig) (now pid : ℕ) (b : LiveBroker)
    → IsBroker c b
    → IsBroker c (tick_failed c now pid b)
unfolding tick_failed
tick_failed-IsBroker c now pid b i = elim (Option-cases (Dict.get pid b.objects)) [
  | inl e ↦ rw (e, tick_failed) i
  | inr (p, e) ↦
      let next =
        update-IsBroker c pid (λ q. record q { consecutive_errors = q.consecutive_errors + 1 }) b
          b.fetch_count (λ q. refl) (λ q. refl) i in
      elim (Bool-cases (leb c.max_consecutive_errors (p.consecutive_errors + 1))) [
        | inl h ↦
            rw (e, tick_failed, h)
              (not_polling-IsBroker c pid _ (drop_all-IsBroker c pid p.subscribers _ next))
        | inr h ↦
            rw (e, tick_failed, h)
              (tick_end-IsBroker c now pid _ (not_polling-IsBroker c pid _ next))
      ]
]

tick_start-IsBroker :
    (c : BrokerConfig) (pid : ℕ) (b : LiveBroker) → IsBroker c b → IsBroker c (tick_start pid b)
unfolding tick_start
tick_start-IsBroker c pid b i =
    update-IsBroker c pid
      (λ p. record p { timer = none; polling = if p.stopped then p.polling else true }) b
      b.fetch_count (λ p. refl) (λ p. refl) i

catch_up_done-IsBroker :
    (c : BrokerConfig) (accepts : ℕ → Bool) (result : Option LiveDelta) (pid s : ℕ) (b : LiveBroker)
    → IsBroker c b
    → IsBroker c (catch_up_done accepts result pid s b)
unfolding catch_up_done
catch_up_done-IsBroker c accepts none pid s b i = detach-IsBroker c pid s b i
catch_up_done-IsBroker c accepts (some delta) pid s b i =
    let next : IsBroker c (record b { fetch_count = b.fetch_count + 1 }) = record {
      distinct = i.distinct;
      numbered = i.numbered;
      known = i.known;
      single = i.single;
      capped = i.capped;
      counted = i.counted;
      limited = i.limited;
    } in
    elim (Bool-cases (is_quiet delta || accepts s)) [
      | inl h ↦ rw h next
      | inr h ↦ rw h (detach-IsBroker c pid s _ next)
    ]

Step-IsBroker : (c : BrokerConfig) {a b : LiveBroker} → Step c a b → IsBroker c a → IsBroker c b
unfolding tick_done
Step-IsBroker c {a} (joined trace_id cursor s now fresh) i =
    subscribe-IsBroker c trace_id cursor s now a fresh i
Step-IsBroker c {a} (left pid s) i = detach-IsBroker c pid s a i
Step-IsBroker c {a} (fired pid) i = tick_start-IsBroker c pid a i
Step-IsBroker c {a} (fetched accepts none now pid) i = tick_failed-IsBroker c now pid a i
Step-IsBroker c {a} (fetched accepts (some delta) now pid) i =
    tick_end-IsBroker c now pid _
      (not_polling-IsBroker c pid _ (tick_fetched-IsBroker c accepts delta now pid a i))
Step-IsBroker c {a} (caught_up accepts result pid s) i =
    catch_up_done-IsBroker c accepts result pid s a i

no_pollers-IsBroker : (c : BrokerConfig) → IsBroker c no_pollers
unfolding no_pollers total Dict.get
no_pollers-IsBroker c = record {
  distinct = tt;
  numbered = λ pid h. absurd (cc);
  known = λ t pid e. absurd (cc);
  single = λ pid p e l. absurd (cc);
  capped = λ pid p e. absurd (cc);
  counted = refl;
  limited = omega arith;
}

-- In every state that the broker reaches, by subscribers that come and go, timers, fetches that
-- bring any delta or fail, and subscribers that refuse a delta: the count of subscribers is the
-- number of subscribers of all pollers and within the global cap, no poller has more than the cap
-- of a trace, and each poller that has a subscriber is the registered one of its trace. A
-- connection subscribes only while no poller has it.
pub Reachable-IsBroker : (c : BrokerConfig) {b : LiveBroker} → Reachable c b → IsBroker c b
Reachable-IsBroker c start = no_pollers-IsBroker c
Reachable-IsBroker c (step r s) = Step-IsBroker c s (Reachable-IsBroker c r)

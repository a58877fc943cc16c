-- ===== src/Broker/Leaves.antt =====
-- A subscriber that leaves keeps the broker well-formed, and its poller stops with the last one.
use trace_bloom.Base.{
  ℕ, ◌+◌, ◌-◌, ◌≤◌, ◌<◌, ◌≡◌, refl, ◌⊎◌, inl, inr, ◌≢◌, String, true, some, arith, length, elem,
  nat_beq, nat_eq, string_eq, Bool-cases, Option-cases, ap, ◌∙◌,
}
use trace_bloom.Dict
use trace_bloom.Dict.{Dict, keys, IsMap}
use trace_bloom.Broker.{
  BrokerConfig, TracePoller, LiveBroker, remove, remove_poller, drop_subscriber, let_go, detach,
}
use trace_bloom.Broker.Bounds.{
  IsBroker, total, total-modify, length-modify, length-remove, get-changed, found-after,
}

drop_subscriber-subscribers :
    (s : ℕ) (p : TracePoller) → (drop_subscriber s p).subscribers ≡ remove s p.subscribers
unfolding drop_subscriber
drop_subscriber-subscribers s p = elim (Bool-cases (nat_beq (length (remove s p.subscribers)) 0)) [
  | inl h ↦ rw h refl
  | inr h ↦ rw h refl
]

drop_subscriber-trace : (s : ℕ) (p : TracePoller) → (drop_subscriber s p).trace_id ≡ p.trace_id
unfolding drop_subscriber
drop_subscriber-trace s p = elim (Bool-cases (nat_beq (length (remove s p.subscribers)) 0)) [
  | inl h ↦ rw h refl
  | inr h ↦ rw h refl
]

module _ (c : BrokerConfig) (pid s : ℕ) (p : TracePoller) (b : LiveBroker) (i : IsBroker c b)
    (found : Dict.get pid b.objects ≡ some p) (there : elem s p.subscribers ≡ true) where
  abbrev objects : Dict ℕ TracePoller
  objects = Dict.modify pid (drop_subscriber s) b.objects

  left_size : length (drop_subscriber s p).subscribers + 1 ≡ length p.subscribers
  left_size = ground (arith, drop_subscriber-subscribers s p, length-remove s p.subscribers there)

  counted_left : b.subscriber_count - 1 ≡ total objects
  counted_left =
      omega (arith, total-modify pid (drop_subscriber s) b.objects p found, left_size, i.counted)

  capped_left :
      (j : ℕ) (q : TracePoller)
      → Dict.get j objects ≡ some q
      → length q.subscribers ≤ c.max_subscribers_per_trace
  capped_left j q e =
      let (o, g, cases) = get-changed pid j (drop_subscriber s) b.objects q e in
      elim cases [
        | inl (at, same) ↦
            let one : o ≡ p = ground arith in
            ground (arith, i.capped j o g, left_size, ap (drop_subscriber s) one)
        | inr (off, same) ↦ ground (arith, i.capped j o g)
      ]

  -- A poller that still has subscribers had them before, and is registered.
  single_left :
      (j : ℕ) (q : TracePoller)
      → Dict.get j objects ≡ some q
      → 1 ≤ length q.subscribers
      → (Dict.get q.trace_id b.registry ≡ some j)
        × ((j ≢ pid) ⊎ (1 ≤ length (remove s p.subscribers)))
  single_left j q e l =
      let (o, g, cases) = get-changed pid j (drop_subscriber s) b.objects q e in
      elim cases [
        | inl (at, same) ↦
            let one : o ≡ p = ground arith in
            let size : length q.subscribers ≡ length (remove s p.subscribers) =
              ap (λ (r : TracePoller). length r.subscribers) (same ∙ ap (drop_subscriber s) one)
              ∙ ap length (drop_subscriber-subscribers s p) in
            let trace : q.trace_id ≡ p.trace_id =
              ap (λ (r : TracePoller). r.trace_id) (same ∙ ap (drop_subscriber s) one)
              ∙ drop_subscriber-trace s p in
            (ground (arith, i.single pid p found, left_size), inr (omega (arith, size)))
        | inr (off, same) ↦ (ground (arith, i.single j o g), inl off)
      ]

  known_left :
      (t : String) (j : ℕ)
      → Dict.get t b.registry ≡ some j
      → (q : TracePoller) × (Dict.get j objects ≡ some q) × (q.trace_id ≡ t)
  known_left t j e =
      found-after pid j (drop_subscriber s) b.objects t (drop_subscriber-trace s) (i.known t j e)

  numbered_left : (j : ℕ) → elem j (keys objects) ≡ true → j < length objects
  numbered_left j h = ground (
    arith,
    i.numbered j,
    Dict.keys-modify pid (drop_subscriber s) b.objects,
    length-modify pid (drop_subscriber s) b.objects,
  )

  registered : Dict.get p.trace_id b.registry ≡ some pid
  registered = i.single pid p found (omega (arith, left_size))

  -- The last one leaves: the trace id is free again.
  last_left :
      length (remove s p.subscribers) ≡ 0
      → IsBroker c (record b {
        objects = objects;
        subscriber_count = b.subscriber_count - 1;
        registry = Dict.delete p.trace_id b.registry;
      })
  last_left z = record {
    distinct = Dict.delete-IsMap p.trace_id b.registry i.distinct;
    numbered = numbered_left;
    known = λ t j e. known_left t j (
        ground (
          arith,
          Dict.get-delete_self p.trace_id b.registry i.distinct,
          Dict.get-delete_ne p.trace_id t b.registry,
          string_eq.beq_iff p.trace_id t,
        ));
    single = λ j q e l.
        let (r, cases) = single_left j q e l in
        elim cases [
          | inl off ↦
              ground (arith, registered, Dict.get-delete_ne p.trace_id q.trace_id b.registry)
          | inr more ↦ absurd (omega arith)
        ];
    capped = capped_left;
    counted = counted_left;
    limited = omega (arith, i.limited);
  }

  others_left :
      IsBroker c (record b { objects = objects; subscriber_count = b.subscriber_count - 1 })
  others_left = record {
    distinct = i.distinct;
    numbered = numbered_left;
    known = known_left;
    single = λ j q e l. (single_left j q e l).0;
    capped = capped_left;
    counted = counted_left;
    limited = omega (arith, i.limited);
  }

  let_go-IsBroker : IsBroker c (let_go pid s p b)
  unfolding let_go remove_poller
  let_go-IsBroker = elim (Bool-cases (nat_beq (length (remove s p.subscribers)) 0)) [
    | inl h ↦
        let itself : nat_beq pid pid ≡ true = ground arith in
        rw (h, registered, remove_poller, itself) (last_left (ground arith))
    | inr h ↦ rw h others_left
  ]

pub detach-IsBroker :
    (c : BrokerConfig) (pid s : ℕ) (b : LiveBroker) → IsBroker c b → IsBroker c (detach pid s b)
unfolding detach
detach-IsBroker c pid s b i = elim (Option-cases (Dict.get pid b.objects)) [
  | inl e ↦ rw (e, detach) i
  | inr (p, e) ↦ elim (Bool-cases (elem s p.subscribers)) [
    | inl h ↦ rw (e, detach, h) (let_go-IsBroker c pid s p b i e h)
    | inr h ↦ rw (e, detach, h) i
  ]
]

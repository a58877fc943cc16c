-- ===== src/Broker/Joins.antt =====
-- A subscriber that joins keeps the broker well-formed.
use trace_bloom.Base.{
  ℕ, ◌+◌, ◌<◌, ◌≡◌, refl, ◌⊎◌, inl, inr, String, true, false, none, some, List, [], ◌∷◌, ◌++◌,
  arith, length, length-append, elem, nat_eq, string_eq, Bool-cases, Option-cases, ap, ◌∙◌,
}
use trace_bloom.Dict
use trace_bloom.Dict.{Dict, keys, IsMap}
use trace_bloom.Traces.{LiveCursor}
use trace_bloom.Broker.{
  BrokerConfig, TracePoller, LiveBroker, new_poller, add_to, attach_to, poller_of, can_accept,
  ensure_poller, join_poller, subscribe,
}
use trace_bloom.Broker.Bounds.{
  IsBroker, total, total-modify, length-modify, get-changed, found-after,
}

length-add_to : (x : ℕ) (ys : List ℕ) → elem x ys ≡ false → length (add_to x ys) ≡ length ys + 1
unfolding add_to
length-add_to x ys h = rw h (omega (arith, length-append ys (x ∷ [])))

-- A poller to join: it is registered, has room, and the subscriber is new to it.
record CanJoin (c : BrokerConfig) (s pid : ℕ) (b : LiveBroker) : Type 0 where
  ok : IsBroker c b
  poller : TracePoller
  found : Dict.get pid b.objects ≡ some poller
  registered : Dict.get poller.trace_id b.registry ≡ some pid
  fresh : elem s poller.subscribers ≡ false
  room : length poller.subscribers < c.max_subscribers_per_trace
  spare : b.subscriber_count < c.max_subscribers

attach_to-subscribers :
    (s : ℕ) (p : TracePoller) → (attach_to s p).subscribers ≡ add_to s p.subscribers
unfolding attach_to
attach_to-subscribers s p = refl

attach_to-trace : (s : ℕ) (p : TracePoller) → (attach_to s p).trace_id ≡ p.trace_id
unfolding attach_to
attach_to-trace s p = refl

join_poller-IsBroker :
    (c : BrokerConfig) (cursor : LiveCursor) (s pid : ℕ) (b : LiveBroker)
    → CanJoin c s pid b
    → IsBroker c (join_poller cursor s (pid, b)).1
unfolding join_poller
join_poller-IsBroker c cursor s pid b j =
    let grown : length (attach_to s j.poller).subscribers ≡ length j.poller.subscribers + 1 =
      ap length (attach_to-subscribers s j.poller) ∙ length-add_to s j.poller.subscribers j.fresh in
    record {
      distinct = j.ok.distinct;
      numbered = λ k h. ground (
        arith,
        j.ok.numbered k,
        Dict.keys-modify pid (attach_to s) b.objects,
        length-modify pid (attach_to s) b.objects,
      );
      known = λ t k e.
          found-after pid k (attach_to s) b.objects t (attach_to-trace s) (j.ok.known t k e);
      single = λ k q e l.
          let (o, g, cases) = get-changed pid k (attach_to s) b.objects q e in
          elim cases [
            | inl (at, same) ↦
                let one : o ≡ j.poller = ground (arith, j.found) in
                ground (arith, j.registered, attach_to-trace s o, ap (attach_to s) one)
            | inr (off, same) ↦ ground (arith, j.ok.single k o g)
          ];
      capped = λ k q e.
          let (o, g, cases) = get-changed pid k (attach_to s) b.objects q e in
          elim cases [
            | inl (at, same) ↦
                let one : o ≡ j.poller = ground (arith, j.found) in
                ground (arith, grown, j.room, ap (attach_to s) one)
            | inr (off, same) ↦ ground (arith, j.ok.capped k o g)
          ];
      counted =
          omega
            (arith, total-modify pid (attach_to s) b.objects j.poller j.found, grown, j.ok.counted);
      limited = omega (arith, j.spare);
    }

total-append_single :
    (m : Dict ℕ TracePoller) (pid : ℕ) (p : TracePoller)
    → total (m ++ (pid, p) ∷ []) ≡ total m + length p.subscribers
unfolding total
total-append_single [] pid p = omega arith
total-append_single ((i, q) ∷ m) pid p = omega (arith, total-append_single m pid p)

module _ (c : BrokerConfig) (trace_id : String) (cursor : LiveCursor) (now : ℕ) (b : LiveBroker)
    (i : IsBroker c b) (absent : Dict.get trace_id b.registry ≡ none) where
  abbrev made : TracePoller
  made = new_poller trace_id cursor now

  abbrev pid : ℕ
  pid = length b.objects

  abbrev extended : LiveBroker
  extended = record b {
    objects = b.objects ++ (pid, made) ∷ [];
    registry = Dict.set trace_id pid b.registry;
  }

  unused : Dict.get pid b.objects ≡ none
  unused = ground (arith, i.numbered pid, Dict.elem-keys pid b.objects)

  empty : length made.subscribers ≡ 0
  unfolding new_poller
  empty = refl

  made-trace : made.trace_id ≡ trace_id
  unfolding new_poller
  made-trace = refl

  made_found : Dict.get pid extended.objects ≡ some made
  made_found =
      ground (arith, Dict.get-append_single pid pid made b.objects unused, nat_eq.beq_iff pid pid)

  found-extended :
      (j : ℕ) (q : TracePoller)
      → Dict.get j extended.objects ≡ some q
      → (q ≡ made) ⊎ (Dict.get j b.objects ≡ some q)
  found-extended j q e = ground (arith, Dict.get-append_single j pid made b.objects unused)

  kept-extended :
      (j : ℕ) (q : TracePoller)
      → Dict.get j b.objects ≡ some q
      → Dict.get j extended.objects ≡ some q
  kept-extended j q e =
      ground
        (arith, Dict.get-append_single j pid made b.objects unused, unused, nat_eq.beq_iff pid j)

  known-extended :
      (t : String) (j : ℕ)
      → Dict.get t extended.registry ≡ some j
      → (p : TracePoller) × (Dict.get j extended.objects ≡ some p) × (p.trace_id ≡ t)
  known-extended t j e = elim (Bool-cases (string_eq.beq trace_id t)) [
    | inl same ↦
        let at : pid ≡ j = ground (arith, Dict.get-set trace_id t pid b.registry) in
        (made, rw (← at) made_found, ground (arith, made-trace, string_eq.beq_iff trace_id t))
    | inr other ↦
        let (p, g, h) = i.known t j (ground (arith, Dict.get-set trace_id t pid b.registry)) in
        (p, kept-extended j p g, h)
  ]

  extended-IsBroker : IsBroker c extended
  extended-IsBroker = record {
    distinct = Dict.set-IsMap trace_id pid b.registry i.distinct;
    numbered = λ j h. ground (
      arith,
      i.numbered j,
      Dict.elem-keys-append j b.objects ((pid, made) ∷ []),
      length-append b.objects ((pid, made) ∷ []),
      nat_eq.beq_iff pid j,
    );
    known = known-extended;
    single = λ j q e l. elim (found-extended j q e) [
      | inl new ↦ absurd (ground (arith, empty, ap (λ (r : TracePoller). length r.subscribers) new))
      | inr old ↦
          ground
            (arith, i.single j q old, absent, Dict.get-set_ne trace_id q.trace_id pid b.registry)
    ];
    capped = λ j q e. elim (found-extended j q e) [
      | inl new ↦ ground (arith, empty, ap (λ (r : TracePoller). length r.subscribers) new)
      | inr old ↦ ground (arith, i.capped j q old)
    ];
    counted = omega (arith, i.counted, total-append_single b.objects pid made, empty);
    limited = i.limited;
  }

-- A connection that no poller knows yet.
abbrev pub IsNew : ℕ → LiveBroker → Type 0
IsNew s b =
    (pid : ℕ) (p : TracePoller) → Dict.get pid b.objects ≡ some p → elem s p.subscribers ≡ false

ensure_poller-CanJoin :
    (c : BrokerConfig) (trace_id : String) (cursor : LiveCursor) (s now : ℕ) (b : LiveBroker)
    → IsBroker c b
    → IsNew s b
    → can_accept c trace_id b ≡ true
    → CanJoin c s (ensure_poller trace_id cursor now b).0 (ensure_poller trace_id cursor now b).1
unfolding ensure_poller can_accept poller_of new_poller
ensure_poller-CanJoin c trace_id cursor s now b i fresh ok =
    elim (Option-cases (Dict.get trace_id b.registry)) [
      | inr (pid, e) ↦
          let (p, g, h) = i.known trace_id pid e in
          rw (e, ensure_poller)
            (record {
              ok = i;
              poller = p;
              found = g;
              registered = rw h e;
              fresh = fresh pid p g;
              room = ground arith;
              spare = ground arith;
            })
      | inl e ↦
          rw (e, ensure_poller)
            (record {
              ok = extended-IsBroker c trace_id cursor now b i e;
              poller = new_poller trace_id cursor now;
              found = made_found c trace_id cursor now b i e;
              registered = Dict.get-set_self trace_id (length b.objects) b.registry;
              fresh = refl;
              room = ground arith;
              spare = ground arith;
            })
    ]

pub subscribe-IsBroker :
    (c : BrokerConfig) (trace_id : String) (cursor : LiveCursor) (s now : ℕ) (b : LiveBroker)
    → IsNew s b
    → IsBroker c b
    → IsBroker c (subscribe c trace_id cursor s now b).1
unfolding subscribe
subscribe-IsBroker c trace_id cursor s now b fresh i = elim (Bool-cases (can_accept c trace_id b)) [
  | inl h ↦
      let j = ensure_poller-CanJoin c trace_id cursor s now b i fresh h in
      rw h (
        join_poller-IsBroker c cursor s (ensure_poller trace_id cursor now b).0
          (ensure_poller trace_id cursor now b).1 j)
  | inr h ↦ rw h i
]

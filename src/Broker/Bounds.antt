-- ===== src/Broker/Bounds.antt =====
-- What every step keeps: the caps, the count of subscribers, and one poller for each trace.
use trace_bloom.Base.{
  ℕ, suc, ◌+◌, ◌≤◌, ◌<◌, ◌≡◌, refl, ◌⊎◌, inl, inr, ◌≢◌, String, true, none, some, List, [], ◌∷◌,
  arith, length, elem, nat_beq, nat_eq, string_eq, Bool-cases, Option-cases, ap, ◌∙◌, sym,
}
use trace_bloom.Dict
use trace_bloom.Dict.{Dict, keys, map_some, IsMap}
use trace_bloom.Broker.{BrokerConfig, TracePoller, LiveBroker, remove}

-- The subscribers of all pollers.
unfoldable pub total : Dict ℕ TracePoller → ℕ
total [] = 0
total ((pid, p) ∷ objects) = length p.subscribers + total objects

pub record IsBroker (c : BrokerConfig) (b : LiveBroker) : Type 0 where
  pub distinct : IsMap b.registry
  pub numbered : (pid : ℕ) → elem pid (keys b.objects) ≡ true → pid < length b.objects
  pub known :
      (t : String) (pid : ℕ)
      → Dict.get t b.registry ≡ some pid
      → (p : TracePoller) × (Dict.get pid b.objects ≡ some p) × (p.trace_id ≡ t)
  pub single :
      (pid : ℕ) (p : TracePoller)
      → Dict.get pid b.objects ≡ some p
      → 1 ≤ length p.subscribers
      → Dict.get p.trace_id b.registry ≡ some pid
  pub capped :
      (pid : ℕ) (p : TracePoller)
      → Dict.get pid b.objects ≡ some p
      → length p.subscribers ≤ c.max_subscribers_per_trace
  pub counted : b.subscriber_count ≡ total b.objects
  pub limited : b.subscriber_count ≤ c.max_subscribers

pub length-remove :
    (x : ℕ) (ys : List ℕ) → elem x ys ≡ true → suc (length (remove x ys)) ≡ length ys
unfolding remove
length-remove x [] h = absurd (cc)
length-remove x (y ∷ ys) h = ground (arith, length-remove x ys)

pub total-modify :
    (pid : ℕ) (f : TracePoller → TracePoller) (m : Dict ℕ TracePoller) (p : TracePoller)
    → Dict.get pid m ≡ some p
    → total (Dict.modify pid f m) + length p.subscribers ≡ total m + length (f p).subscribers
unfolding total Dict.modify Dict.get
total-modify pid f [] p e = absurd (cc)
total-modify pid f ((i, q) ∷ m) p e = elim (Bool-cases (nat_beq i pid)) [
  | inl h ↦ let same : q ≡ p = ground arith in rw (h, same) (omega arith)
  | inr h ↦ rw h (omega (arith, total-modify pid f m p (rw h at e)))
]

pub length-modify :
    (pid : ℕ) (f : TracePoller → TracePoller) (m : Dict ℕ TracePoller)
    → length (Dict.modify pid f m) ≡ length m
unfolding Dict.modify
length-modify pid f [] = refl
length-modify pid f ((i, q) ∷ m) = ground (arith, length-modify pid f m)

modify-absent :
    (pid : ℕ) (f : TracePoller → TracePoller) (m : Dict ℕ TracePoller)
    → Dict.get pid m ≡ none
    → Dict.modify pid f m ≡ m
unfolding Dict.modify Dict.get
modify-absent pid f [] e = refl
modify-absent pid f ((i, q) ∷ m) e = elim (Bool-cases (nat_beq i pid)) [
  | inl h ↦ absurd (ground arith)
  | inr h ↦ rw h (ap (◌∷◌ (i, q)) (modify-absent pid f m (rw h at e)))
]

-- What `get` finds after a change of one poller.
pub get-changed :
    (pid j : ℕ) (f : TracePoller → TracePoller) (m : Dict ℕ TracePoller) (q : TracePoller)
    → Dict.get j (Dict.modify pid f m) ≡ some q
    → (p : TracePoller) × (Dict.get j m ≡ some p) × ((j ≡ pid) × (q ≡ f p) ⊎ (j ≢ pid) × (q ≡ p))
get-changed pid j f m q e = elim (Option-cases (Dict.get j m)) [
  | inl n ↦ absurd (ground (arith, Dict.get-modify pid j f m))
  | inr (p, n) ↦ (p, n, ground (arith, Dict.get-modify pid j f m))
]

-- And what it finds where it found something before.
pub found-after :
    (pid j : ℕ) (f : TracePoller → TracePoller) (m : Dict ℕ TracePoller) (t : String)
    → ((p : TracePoller) → (f p).trace_id ≡ p.trace_id)
    → (p : TracePoller) × (Dict.get j m ≡ some p) × (p.trace_id ≡ t)
    → (p : TracePoller) × (Dict.get j (Dict.modify pid f m) ≡ some p) × (p.trace_id ≡ t)
found-after pid j f m t same (p, e, h) = elim (Bool-cases (nat_beq pid j)) [
  | inl k ↦ (f p, ground (arith, Dict.get-modify pid j f m), same p ∙ h)
  | inr k ↦ (p, ground (arith, Dict.get-modify pid j f m), h)
]

-- A change that leaves the subscribers of a poller and its trace.
pub update-IsBroker :
    (c : BrokerConfig) (pid : ℕ) (f : TracePoller → TracePoller) (b : LiveBroker) (n : ℕ)
    → ((p : TracePoller) → (f p).trace_id ≡ p.trace_id)
    → ((p : TracePoller) → (f p).subscribers ≡ p.subscribers)
    → IsBroker c b
    → IsBroker c (record b { objects = Dict.modify pid f b.objects; fetch_count = n })
update-IsBroker c pid f b n trace subs i = record {
  distinct = i.distinct;
  numbered = λ j h.
      ground (arith, i.numbered j, Dict.keys-modify pid f b.objects, length-modify pid f b.objects);
  known = λ t j e. found-after pid j f b.objects t trace (i.known t j e);
  single = λ j q e l.
      let (p, g, cases) = get-changed pid j f b.objects q e in
      elim cases [
        | inl (at, same) ↦ ground (arith, i.single j p g, trace p, subs p)
        | inr (off, same) ↦ ground (arith, i.single j p g)
      ];
  capped = λ j q e.
      let (p, g, cases) = get-changed pid j f b.objects q e in
      elim cases [
        | inl (at, same) ↦ ground (arith, i.capped j p g, subs p)
        | inr (off, same) ↦ ground (arith, i.capped j p g)
      ];
  counted = elim (Option-cases (Dict.get pid b.objects)) [
    | inl none_there ↦ i.counted ∙ ap total (sym (modify-absent pid f b.objects none_there))
    | inr (p, e) ↦ ground (arith, i.counted, total-modify pid f b.objects p e, subs p)
  ];
  limited = i.limited;
}

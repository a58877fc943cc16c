-- ===== src/Live/Snapshot.antt =====
-- The live view of a snapshot: what useLiveTrace derives before the first delta has arrived is what
-- the page rendered from getTraceDetail.
use trace_bloom.Base.{
  ℕ, ◌+◌, ◌-◌, ◌<◌, ◌≤◌, ◌⊎◌, inl, inr, Bool-cases, nat_eq, ◌≡◌, refl, sym, ap, ◌==◌, ◌∙◌, String,
  Bool, true, false, not, List, [], ◌∷◌, ◌++◌, map, arith, All, elem, Distinct, string_eq, ltb,
  if◌then◌else◌,
}
use mathlib.Core.List.{append_assoc, append-nil}
use trace_bloom.Dict
use trace_bloom.Dict.{Dict, keys, values}
use trace_bloom.Traces.{TraceSpan, SpanEvalResult, RawSpanRow, RawEvalRow, map_eval_row}
use trace_bloom.Traces.Double.{exact_limit, to_number, to_number-exact, to_number-to_number}
use trace_bloom.Traces.Detail.{
  TraceDetail, min_from, min_start, to_trace_span, kept_rows, detail_of,
}
use trace_bloom.Live.{LiveSpan, LiveTraceState, eval_key}
use trace_bloom.Live.View.{
  to_live_span, of_live_span, seed_spans, seed_evals, LiveSeed, seed_live_state, derive_trace_view,
}

-- What the page hands to the viewer.
abbrev pub seed_of : String → TraceDetail → Bool → LiveSeed
seed_of trace_id d root_seen = record {
  trace_id = trace_id;
  anchor_start_ns = d.anchor_start_ns;
  spans = d.spans;
  eval_results = d.eval_results;
  cursor = d.cursor;
  root_seen = root_seen;
}

module _ {ℓ κ} {A : Type ℓ} {V : Type κ} (key : A → String) (value : A → V) where
  abbrev entries : List A → Dict String V
  entries = map (λ a. (key a, value a))

  abbrev ids : List A → List String
  ids = map key

  set_all : List A → Dict String V → Dict String V
  set_all [] m = m
  set_all (a ∷ as') m = set_all as' (Dict.set (key a) (value a) m)

  set_all-append :
      (as' : List A) (m : Dict String V)
      → Distinct (ids as')
      → ((k : String) → elem k (ids as') ≡ true → elem k (keys m) ≡ false)
      → set_all as' m ≡ m ++ entries as'
  unfolding set_all
  set_all-append [] m d fresh = rw append-nil
  set_all-append (a ∷ as') m d fresh =
      rw
        (Dict.set-append (key a) (value a) m
          (fresh (key a) (ground (arith, string_eq.beq_iff (key a) (key a)))))
        (set_all-append as' (m ++ (key a, value a) ∷ []) d.1 (λ k h. ground (
          arith,
          Dict.elem-keys-append k m ((key a, value a) ∷ []),
          fresh k,
          string_eq.beq_iff (key a) k,
        ))
          ∙ append_assoc m ((key a, value a) ∷ []) (entries as'))

  values-entries : (as' : List A) → values (entries as') ≡ map value as'
  values-entries [] = refl
  values-entries (a ∷ as') = ap (◌∷◌ (value a)) (values-entries as')

  values-set_all : (as' : List A) → Distinct (ids as') → values (set_all as' []) ≡ map value as'
  values-set_all as' d = rw (set_all-append as' [] d (λ k h. refl)) (values-entries as')

seed_spans-set_all :
    (anchor : ℕ) (ss : List TraceSpan) (m : Dict String LiveSpan)
    → seed_spans anchor ss m ≡ set_all (λ s. s.span_id) (to_live_span anchor) ss m
unfolding seed_spans set_all
seed_spans-set_all anchor [] m = refl
seed_spans-set_all anchor (s ∷ ss) m =
    seed_spans-set_all anchor ss (Dict.set s.span_id (to_live_span anchor s) m)

seed_evals-set_all :
    (rs : List SpanEvalResult) (m : Dict String SpanEvalResult)
    → seed_evals rs m ≡ set_all eval_key (λ r. r) rs m
unfolding seed_evals set_all
seed_evals-set_all [] m = refl
seed_evals-set_all (r ∷ rs) m = seed_evals-set_all rs (Dict.set (eval_key r) r m)

min_from-le : (m : ℕ) (vs : List ℕ) → min_from m vs ≤ m
unfolding min_from
min_from-le m [] = omega arith
min_from-le m (v ∷ vs) = ground (arith, min_from-le m vs, min_from-le v vs)

min_from-below : (k m : ℕ) (vs : List ℕ) → k ≤ min_from m vs → All (λ v. k ≤ v) vs
unfolding min_from
min_from-below k m [] h = tt
min_from-below k m (v ∷ vs) h = (
  ground (arith, min_from-le m vs, min_from-le v vs),
  min_from-below k (if ltb v m then v else m) vs h,
)

min_start-le : (vs : List ℕ) → All (λ v. min_start vs ≤ v) vs
unfolding min_start
min_start-le [] = tt
min_start-le (v ∷ vs) = min_from-below _ v (v ∷ vs) (omega arith)

-- The minimum is the first value or one of the others.
min_from-elem : (k m : ℕ) (vs : List ℕ) → min_from m vs ≡ k → (k ≡ m) ⊎ (elem k vs ≡ true)
unfolding min_from
min_from-elem k m [] h = inl (sym h)
min_from-elem k m (v ∷ vs) h = elim (min_from-elem k (if ltb v m then v else m) vs h) [
  | inr there ↦ inr (ground (arith, there))
  | inl same ↦ elim (Bool-cases (ltb v m)) [
    | inl e ↦ inr (ground (arith, rw e at same))
    | inr e ↦ inl (rw e at same)
  ]
]

min_start-elem : (v : ℕ) (vs : List ℕ) → elem (min_start (v ∷ vs)) (v ∷ vs) ≡ true
unfolding min_start
min_start-elem v vs = elim (min_from-elem (min_from v (v ∷ vs)) v (v ∷ vs) refl) [
  | inl same ↦ ground (arith, same)
  | inr there ↦ there
]

All-elem : (P : ℕ → Type 0) (k : ℕ) (vs : List ℕ) → All P vs → elem k vs ≡ true → P k
All-elem P k [] h m = absurd (cc)
All-elem P k (v ∷ vs) h m = elim (Bool-cases (v == k)) [
  | inl e ↦ rw (← (nat_eq.beq_iff v k).0 e) h.0
  | inr e ↦ All-elem P k vs h.1 (ground (arith, e))
]

min_start_unique : (k : ℕ) (vs : List ℕ) → All (λ v. k ≤ v) vs → elem k vs ≡ true → min_start vs ≡ k
min_start_unique k [] h m = absurd (cc)
min_start_unique k (v ∷ vs) h m = omega (
  arith,
  All-elem (λ w. min_start (v ∷ vs) ≤ w) k (v ∷ vs) (min_start-le (v ∷ vs)) m,
  All-elem (λ w. k ≤ w) (min_start (v ∷ vs)) (v ∷ vs) h (min_start-elem v vs),
)

-- The starts that the seed has: the first one, and what `Number` makes of the distances from it.
abbrev kept_start : ℕ → ℕ → ℕ
kept_start least v = least + to_number (v - least)

kept_starts-le : (least : ℕ) (vs : List ℕ) → All (λ v. least ≤ v) (map (kept_start least) vs)
kept_starts-le least [] = tt
kept_starts-le least (v ∷ vs) = (omega arith, kept_starts-le least vs)

elem-kept_starts :
    (least : ℕ) (vs : List ℕ) → elem least vs ≡ true → elem least (map (kept_start least) vs) ≡ true
elem-kept_starts least [] h = h
elem-kept_starts least (v ∷ vs) h = elim (Bool-cases (v == least)) [
  | inl e ↦
      let same : v ≡ least = (nat_eq.beq_iff v least).0 e in
      let kept : kept_start least v ≡ least =
        ap (λ w. least + to_number (w - least)) same ∙ self least in
      rw kept (ground arith)
  | inr e ↦ ground (arith, elem-kept_starts least vs)
]
  where
    self : (n : ℕ) → n + to_number (n - n) ≡ n
    self n =
        let none : n - n ≡ 0 = omega arith in
        rw none (omega (arith, to_number-exact 0 (omega arith)))

min_start-kept : (vs : List ℕ) → min_start (map (kept_start (min_start vs)) vs) ≡ min_start vs
min_start-kept [] = refl
min_start-kept (v ∷ vs) =
    min_start_unique (min_start (v ∷ vs)) _ (kept_starts-le (min_start (v ∷ vs)) (v ∷ vs))
      (elem-kept_starts (min_start (v ∷ vs)) (v ∷ vs) (min_start-elem v vs))

starts_back :
    (least : ℕ) (rows : List RawSpanRow)
    → map (λ s. s.start_ns) (map (to_live_span least) (map (to_trace_span least) rows))
      ≡ map (kept_start least) (map (λ r. r.start_ns) rows)
unfolding to_live_span to_trace_span
starts_back least [] = refl
starts_back least (r ∷ rows) = ap (◌∷◌ (kept_start least r.start_ns)) (starts_back least rows)

ids_rows :
    (least : ℕ) (rows : List RawSpanRow)
    → map (λ s. s.span_id) (map (to_trace_span least) rows) ≡ map (λ r. r.span_id) rows
unfolding to_trace_span
ids_rows least [] = refl
ids_rows least (r ∷ rows) = ap (◌∷◌ r.span_id) (ids_rows least rows)

of_live_span-to_live_span :
    (n : ℕ) (s : TraceSpan)
    → to_number s.start_offset_ns ≡ s.start_offset_ns
    → of_live_span n (to_live_span n s) ≡ s
unfolding of_live_span to_live_span
of_live_span-to_live_span n s h =
    let back : n + s.start_offset_ns - n ≡ s.start_offset_ns = omega arith in rw (back, h) refl

spans_back :
    (n : ℕ) (rows : List RawSpanRow)
    → map (of_live_span n) (map (to_live_span n) (map (to_trace_span n) rows))
      ≡ map (to_trace_span n) rows
unfolding to_trace_span
spans_back n [] = refl
spans_back n (r ∷ rows) = rw (
  of_live_span-to_live_span n (to_trace_span n r) (to_number-to_number (r.start_ns - n)),
  spans_back n rows,
)

map_id {ℓ} : {A : Type ℓ} (xs : List A) → map (λ x. x) xs ≡ xs
map_id [] = refl
map_id (x ∷ xs) = ap (◌∷◌ x) (map_id xs)

-- The view derived from the seed of a snapshot is the snapshot: its spans with their offsets, its
-- aggregates, its evaluations and its anchor, where the two queries return one row for each span
-- id and one for each evaluation of a span, as their LIMIT 1 BY clauses ask.
pub derive_trace_view-seed :
    (trace_id : String) (raw : List RawSpanRow) (evals : List RawEvalRow) (now : ℕ)
    (root_seen : Bool)
    → Distinct (map (λ r. r.span_id) (kept_rows raw))
    → Distinct (map eval_key (map map_eval_row evals))
    → let d = detail_of trace_id raw evals now in
      derive_trace_view (seed_live_state (seed_of trace_id d root_seen)) ≡ record {
        trace = d.trace;
        spans = d.spans;
        eval_results = d.eval_results;
        anchor_start_ns = d.anchor_start_ns;
        running = not root_seen;
      }
unfolding derive_trace_view seed_live_state detail_of
derive_trace_view-seed trace_id raw evals now root_seen distinct_spans distinct_evals =
    let rows = kept_rows raw in
    let least = min_start (map (λ r. r.start_ns) rows) in
    let spans = map (to_trace_span least) rows in
    let live : values (seed_spans least spans []) ≡ map (to_live_span least) spans =
      rw (seed_spans-set_all least spans [])
        (values-set_all _ _ spans (rw (ids_rows least rows) distinct_spans)) in
    let results : values (seed_evals (map map_eval_row evals) []) ≡ map map_eval_row evals =
      rw (seed_evals-set_all (map map_eval_row evals) [])
        (values-set_all _ _ (map map_eval_row evals) distinct_evals ∙ map_id _) in
    rw (
      live,
      results,
      starts_back least rows,
      min_start-kept (map (λ r. r.start_ns) rows),
      spans_back least rows,
    )

-- Starts that a binary floating point number tells apart exactly from the first: within 2 ^ 53 ns,
-- which is 104 days.
abbrev pub AreNear : ℕ → List ℕ → Type 0
AreNear least = All (λ v. v - least < exact_limit)

offsets_back :
    (least : ℕ) (ss : List LiveSpan)
    → All (λ v. least ≤ v) (map (λ s. s.start_ns) ss)
    → AreNear least (map (λ s. s.start_ns) ss)
    → map (λ s. least + s.start_offset_ns) (map (of_live_span least) ss) ≡ map (λ s. s.start_ns) ss
unfolding of_live_span
offsets_back least [] h near = refl
offsets_back least (s ∷ ss) h near =
    ground (arith, offsets_back least ss h.1 near.1, to_number-exact (s.start_ns - least) near.0)

-- Whatever deltas were merged, the anchor of the derived view is the earliest start of its spans: no
-- span starts before it, and if there is a span, one starts at it. So a late span that starts before
-- all others moves the anchor, and with it every offset: the anchor plus the offset of a span is the
-- absolute start of that span, where each span starts less than 2 ^ 53 ns after the first.
pub derive_trace_view-anchored :
    (state : LiveTraceState)
    → let view = derive_trace_view state in
      let starts = map (λ s. s.start_ns) (values state.spans) in
      AreNear (min_start starts) starts
      → All (λ v. view.anchor_start_ns ≤ v) starts
        × ((starts ≡ []) ⊎ (elem view.anchor_start_ns starts ≡ true))
        × (map (λ s. view.anchor_start_ns + s.start_offset_ns) view.spans ≡ starts)
unfolding derive_trace_view
derive_trace_view-anchored state near = (
  min_start-le _,
  earliest (map (λ s. s.start_ns) (values state.spans)),
  offsets_back _ (values state.spans) (min_start-le _) near,
)
  where
    earliest : (vs : List ℕ) → (vs ≡ []) ⊎ (elem (min_start vs) vs ≡ true)
    earliest [] = inl refl
    earliest (v ∷ vs) = inr (min_start-elem v vs)

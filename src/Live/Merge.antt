-- ===== src/Live/Merge.antt =====
-- What a merge of deltas keeps: the first row of each span, the newest version of each evaluation,
-- and nothing at all of a delta that was merged before.
use trace_bloom.Base.{
  ℕ, suc, max, ◌≤◌, ◌≡◌, refl, String, Bool, true, false, ◌||◌, List, [], ◌∷◌, ◌++◌, Option, none,
  some, arith, if◌then◌else◌, string_eq, ◌==◌, is_some, beq_self,
}
use trace_bloom.Dict
use trace_bloom.Dict.{Dict}
use trace_bloom.Traces.{SpanEvalResult}
use trace_bloom.Live.{
  LiveSpan, LiveDelta, LiveTraceState, max_cursor, eval_key, merge_spans, merge_evals, is_newer,
  apply_delta,
}

-- The first row with a span id.
abbrev pub find_span : String → List LiveSpan → Option LiveSpan
find_span k [] = none
find_span k (s ∷ ss) = if s.span_id == k then some s else find_span k ss

abbrev pub or_first {ℓ} : {A : Type ℓ} → Option A → Option A → Option A
or_first none o = o
or_first (some a) o = some a

-- 0 where there is no result, and else one more than its version.
abbrev pub rank : Option SpanEvalResult → ℕ
rank none = 0
rank (some r) = suc r.eval_version

-- The highest rank among the results with a key.
abbrev pub best_rank : String → List SpanEvalResult → ℕ
best_rank k [] = 0
best_rank k (r ∷ rs) = max (if eval_key r == k then suc r.eval_version else 0) (best_rank k rs)

merge_spans-get :
    (k : String) (ss : List LiveSpan) (m : Dict String LiveSpan) (b : Bool)
    → Dict.get k (merge_spans ss (m, b)).0 ≡ or_first (Dict.get k m) (find_span k ss)
unfolding merge_spans Dict.has
merge_spans-get k [] m b = ground arith
merge_spans-get k (s ∷ ss) m b = ground (
  arith,
  merge_spans-get k ss m b,
  merge_spans-get k ss (Dict.set s.span_id s m) true,
  Dict.get-set s.span_id k s m,
  string_eq.beq_iff s.span_id k,
)

-- The flag says whether the map is another one.
merge_spans-same :
    (ss : List LiveSpan) (m : Dict String LiveSpan) (b : Bool)
    → (merge_spans ss (m, b)).1 ≡ false
    → (b ≡ false) × ((merge_spans ss (m, b)).0 ≡ m)
unfolding merge_spans
merge_spans-same [] m b h = (h, refl)
merge_spans-same (s ∷ ss) m b h =
    ground (arith, merge_spans-same ss m b, merge_spans-same ss (Dict.set s.span_id s m) true)

merge_evals-rank :
    (k : String) (rs : List SpanEvalResult) (m : Dict String SpanEvalResult) (b : Bool)
    → rank (Dict.get k (merge_evals rs (m, b)).0) ≡ max (rank (Dict.get k m)) (best_rank k rs)
unfolding merge_evals
merge_evals-rank k [] m b = ground arith
merge_evals-rank k (r ∷ rs) m b = ground (
  arith,
  merge_evals-rank k rs m b,
  merge_evals-rank k rs (Dict.set (eval_key r) r m) true,
  Dict.get-set (eval_key r) k r m,
  string_eq.beq_iff (eval_key r) k,
)

merge_evals-same :
    (rs : List SpanEvalResult) (m : Dict String SpanEvalResult) (b : Bool)
    → (merge_evals rs (m, b)).1 ≡ false
    → (b ≡ false) × ((merge_evals rs (m, b)).0 ≡ m)
unfolding merge_evals
merge_evals-same [] m b h = (h, refl)
merge_evals-same (r ∷ rs) m b h =
    ground (arith, merge_evals-same rs m b, merge_evals-same rs (Dict.set (eval_key r) r m) true)

-- After a merge each span id refers to the row that was there, or else to the first one of the
-- delta: a span that is delivered again never replaces a row.
pub apply_delta-spans :
    (s : LiveTraceState) (d : LiveDelta) (k : String)
    → Dict.get k (apply_delta s d).spans ≡ or_first (Dict.get k s.spans) (find_span k d.spans)
unfolding apply_delta
apply_delta-spans s d k =
    ground (arith, merge_spans-get k d.spans s.spans false, merge_spans-same d.spans s.spans false)

-- After a merge each evaluation of a span is held at the highest version among the one that was
-- there and those of the delta.
pub apply_delta-rank :
    (s : LiveTraceState) (d : LiveDelta) (k : String)
    → rank (Dict.get k (apply_delta s d).evals)
      ≡ max (rank (Dict.get k s.evals)) (best_rank k d.evals)
unfolding apply_delta
apply_delta-rank s d k =
    ground (arith, merge_evals-rank k d.evals s.evals false, merge_evals-same d.evals s.evals false)

apply_delta-cursor :
    (s : LiveTraceState) (d : LiveDelta) → (apply_delta s d).cursor ≡ max_cursor s.cursor d.cursor
unfolding apply_delta max_cursor
apply_delta-cursor s d = ground arith

apply_delta-root :
    (s : LiveTraceState) (d : LiveDelta)
    → (apply_delta s d).root_seen ≡ (s.root_seen || d.root_seen)
unfolding apply_delta
apply_delta-root s d = ground arith

-- All that a delta says is in the state already.
pub record Holds (s : LiveTraceState) (d : LiveDelta) : Type 0 where
  pub spans :
      (k : String) → or_first (Dict.get k s.spans) (find_span k d.spans) ≡ Dict.get k s.spans
  pub evals : (k : String) → best_rank k d.evals ≤ rank (Dict.get k s.evals)
  pub span_ms : d.cursor.span_ms ≤ s.cursor.span_ms
  pub eval_ms : d.cursor.eval_ms ≤ s.cursor.eval_ms
  pub root : (s.root_seen || d.root_seen) ≡ s.root_seen

merge_spans_held :
    (ss : List LiveSpan) (m : Dict String LiveSpan) (b : Bool)
    → ((k : String) → or_first (Dict.get k m) (find_span k ss) ≡ Dict.get k m)
    → merge_spans ss (m, b) ≡ (m, b)
unfolding merge_spans Dict.has
merge_spans_held [] m b h = refl
merge_spans_held (s ∷ ss) m b h =
    let seen : is_some (Dict.get s.span_id m) ≡ true =
      ground (arith, h s.span_id, beq_self s.span_id) in
    rw (seen) (merge_spans_held ss m b (λ k. ground (arith, h k, string_eq.beq_iff s.span_id k)))

merge_evals_held :
    (rs : List SpanEvalResult) (m : Dict String SpanEvalResult) (b : Bool)
    → ((k : String) → best_rank k rs ≤ rank (Dict.get k m))
    → merge_evals rs (m, b) ≡ (m, b)
unfolding merge_evals
merge_evals_held [] m b h = refl
merge_evals_held (r ∷ rs) m b h =
    let old : is_newer r (Dict.get (eval_key r) m) ≡ false =
      ground (arith, h (eval_key r), beq_self (eval_key r)) in
    rw old (merge_evals_held rs m b (λ k. ground (arith, h k)))

-- A delta whose content is held leaves the very same state.
apply_delta_held : (s : LiveTraceState) (d : LiveDelta) → Holds s d → apply_delta s d ≡ s
unfolding apply_delta max_cursor
apply_delta_held s d h = ground (
  arith,
  merge_spans_held d.spans s.spans false h.spans,
  merge_evals_held d.evals s.evals false h.evals,
  h.span_ms,
  h.eval_ms,
  h.root,
)

apply_delta-Holds : (s : LiveTraceState) (d : LiveDelta) → Holds (apply_delta s d) d
unfolding max_cursor
apply_delta-Holds s d = record {
  spans = λ k. ground (arith, apply_delta-spans s d k);
  evals = λ k. omega (arith, apply_delta-rank s d k);
  span_ms = ground (arith, apply_delta-cursor s d);
  eval_ms = ground (arith, apply_delta-cursor s d);
  root = ground (arith, apply_delta-root s d);
}

Holds-apply_delta :
    (s : LiveTraceState) (d other : LiveDelta) → Holds s d → Holds (apply_delta s other) d
unfolding max_cursor
Holds-apply_delta s d other h = record {
  spans = λ k. ground (arith, apply_delta-spans s other k, h.spans k);
  evals = λ k. omega (arith, apply_delta-rank s other k, h.evals k);
  span_ms = ground (arith, apply_delta-cursor s other, h.span_ms);
  eval_ms = ground (arith, apply_delta-cursor s other, h.eval_ms);
  root = ground (arith, apply_delta-root s other, h.root);
}

-- The deltas of a stream, in the order in which they arrive.
abbrev pub apply_all : LiveTraceState → List LiveDelta → LiveTraceState
apply_all s [] = s
apply_all s (d ∷ ds) = apply_all (apply_delta s d) ds

Holds-apply_all :
    (s : LiveTraceState) (d : LiveDelta) (ds : List LiveDelta)
    → Holds s d
    → Holds (apply_all s ds) d
Holds-apply_all s d [] h = h
Holds-apply_all s d (o ∷ ds) h = Holds-apply_all (apply_delta s o) d ds (Holds-apply_delta s d o h)

apply_all-Holds :
    (s : LiveTraceState) (d : LiveDelta) (before after : List LiveDelta)
    → Holds (apply_all s (before ++ d ∷ after)) d
apply_all-Holds s d [] after = Holds-apply_all (apply_delta s d) d after (apply_delta-Holds s d)
apply_all-Holds s d (o ∷ before) after = apply_all-Holds (apply_delta s o) d before after

-- A delta that arrives again, however many others came in between, leaves the state as it is: the
-- replay of a reconnect and the overlap of an inclusive cursor change nothing.
pub apply_delta_again :
    (s : LiveTraceState) (d : LiveDelta) (before after : List LiveDelta)
    → apply_delta (apply_all s (before ++ d ∷ after)) d ≡ apply_all s (before ++ d ∷ after)
apply_delta_again s d before after = apply_delta_held _ d (apply_all-Holds s d before after)

-- Two deltas may arrive in either order: the state ends with the same span ids, the same version
-- of each evaluation, the same cursor and the same word on the root span.
pub apply_delta_comm :
    (s : LiveTraceState) (d e : LiveDelta)
    → let l = apply_delta (apply_delta s d) e in
      let r = apply_delta (apply_delta s e) d in
      ((k : String) → is_some (Dict.get k l.spans) ≡ is_some (Dict.get k r.spans))
      × ((k : String) → rank (Dict.get k l.evals) ≡ rank (Dict.get k r.evals))
      × (l.cursor ≡ r.cursor)
      × (l.root_seen ≡ r.root_seen)
unfolding max_cursor
apply_delta_comm s d e = (
  (λ k. ground (
    arith,
    apply_delta-spans s d k,
    apply_delta-spans s e k,
    apply_delta-spans (apply_delta s d) e k,
    apply_delta-spans (apply_delta s e) d k,
  )),
  (λ k. omega (
    arith,
    apply_delta-rank s d k,
    apply_delta-rank s e k,
    apply_delta-rank (apply_delta s d) e k,
    apply_delta-rank (apply_delta s e) d k,
  )),
  ground (
    arith,
    apply_delta-cursor s d,
    apply_delta-cursor s e,
    apply_delta-cursor (apply_delta s d) e,
    apply_delta-cursor (apply_delta s e) d,
  ),
  ground (
    arith,
    apply_delta-root s d,
    apply_delta-root s e,
    apply_delta-root (apply_delta s d) e,
    apply_delta-root (apply_delta s e) d,
  ),
)

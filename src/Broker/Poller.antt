-- ===== src/Broker/Poller.antt =====
-- The poll loop of TracePoller: what one fetch brings, and what is done with it.
use trace_bloom.Base.{
  ℕ, String, Bool, false, ◌||◌, not, Option, none, some, List, [], ◌∷◌, ◌++◌, ltb, if◌then◌else◌,
  elem, nat_eq, string_eq, or_else, keep, ◌==◌, Eq, list_eq,
}
use trace_bloom.Text.{codes}
use trace_bloom.Text.Decimal.{print}
use trace_bloom.Traces.{LiveCursor, SpanEvalResult}
use trace_bloom.Live.{LiveSpan, LiveDelta}
use trace_bloom.Broker.{TracePoller}

-- evalRowKey, as code points.
unfoldable pub eval_row_key : SpanEvalResult → List ℕ
eval_row_key result =
    codes result.eval_id ++ (b' ' ∷ (codes result.span_id ++ (b' ' ∷ print result.eval_version)))

-- The first filter of trimBoundaryReplays.
unfoldable pub is_fresh_span : LiveCursor → List String → LiveSpan → Bool
is_fresh_span prev boundary span =
    ltb prev.span_ms span.ingested_ms || not (elem span.span_id boundary)

-- The second one.
unfoldable pub is_fresh_eval : LiveCursor → List (List ℕ) → SpanEvalResult → Bool
unfolding eval_row_key
is_fresh_eval prev boundary result =
    ltb prev.eval_ms (or_else result.evaluated_ms 0) || not (elem (eval_row_key result) boundary)

-- `Set.prototype.add`.
abbrev pub insert_name {ℓ} : {A : Type ℓ} ⦃e : Eq A⦄ → A → List A → List A
insert_name name names = if elem name names then names else names ++ name ∷ []

unfoldable pub note_spans : ℕ → List LiveSpan → List String → List String
note_spans mark [] names = names
note_spans mark (span ∷ spans) names =
    note_spans mark spans
      (if span.ingested_ms == mark then insert_name span.span_id names else names)

unfoldable pub is_at : ℕ → Option ℕ → Bool
is_at mark none = false
is_at mark (some ms) = ms == mark

unfoldable pub note_evals : ℕ → List SpanEvalResult → List (List ℕ) → List (List ℕ)
unfolding is_at eval_row_key
note_evals mark [] names = names
note_evals mark (result ∷ results) names =
    note_evals mark results
      (if is_at mark result.evaluated_ms then insert_name (eval_row_key result) names else names)

-- trimBoundaryReplays: what is left of the delta, and the poller with its new boundary.
unfoldable pub trim_boundary_replays : LiveDelta → TracePoller → LiveDelta × TracePoller
unfolding is_fresh_span is_fresh_eval note_spans note_evals
trim_boundary_replays fetched p =
    let prev = p.head in
    let mark = fetched.cursor in
    (
      record fetched {
        spans = keep (is_fresh_span prev p.span_boundary) fetched.spans;
        evals = keep (is_fresh_eval prev p.eval_boundary) fetched.evals;
      },
      record p {
        span_boundary =
            note_spans mark.span_ms fetched.spans
              (if mark.span_ms == prev.span_ms then p.span_boundary else []);
        eval_boundary =
            note_evals mark.eval_ms fetched.evals
              (if mark.eval_ms == prev.eval_ms then p.eval_boundary else []);
      },
    )

-- ===== src/Runner/Again.antt =====
-- Running again: spans with a row are not scored a second time.
use trace_bloom.Base.{
  ◌≡◌, refl, ◌∙◌, String, true, none, some, List, [], ◌∷◌, map, keep, elem, arith, string_eq,
  Option-cases, Bool-cases, inl, inr, beq_self,
}
use trace_bloom.Dict.{Dict}
use trace_bloom.Runner.{Host, SpanRow, SpanEventRow, EvalDefinition, Candidate}
use trace_bloom.Runner.Spans.{to_evaluated_span}
use trace_bloom.Runner.Scoring.{candidate_of, candidates_of}
use trace_bloom.Runner.Run.{is_fresh}
use trace_bloom.Runner.Adds.{candidate_span}

module _ (h : Host) (def : EvalDefinition) (name : String)
    (events : Dict String (List SpanEventRow)) where
  span-candidate_of :
      (row : SpanRow) (c : Candidate)
      → candidate_of h def name events row ≡ some c
      → candidate_span c ≡ row.span_id
  unfolding candidate_of to_evaluated_span
  span-candidate_of row c e = ground arith

  candidates_of-skip :
      (row : SpanRow) (rows : List SpanRow)
      → candidate_of h def name events row ≡ none
      → candidates_of h def name events (row ∷ rows) ≡ candidates_of h def name events rows
  unfolding candidates_of
  candidates_of-skip row rows e = rw (e, candidates_of)

  candidates_of-next :
      (row : SpanRow) (rows : List SpanRow) (c : Candidate)
      → candidate_of h def name events row ≡ some c
      → candidates_of h def name events (row ∷ rows) ≡ c ∷ candidates_of h def name events rows
  unfolding candidates_of
  candidates_of-next row rows c e = rw (e, candidates_of)

  -- Idempotency: once the spans of all candidates count as scored, besides those that did before, the
  -- same spans, with the same events, give no candidate at all: a second run over the same window
  -- evaluates nothing.
  pub candidates_of-again :
      (existing scored : List String) (rows : List SpanRow)
      → ((id : String) → elem id existing ≡ true → elem id scored ≡ true)
      → ((id : String)
          → elem id
              (map candidate_span (candidates_of h def name events (keep (is_fresh existing) rows)))
            ≡ true
          → elem id scored ≡ true)
      → candidates_of h def name events (keep (is_fresh scored) rows) ≡ []
  unfolding candidates_of
  candidates_of-again existing scored [] old new = refl
  candidates_of-again existing scored (row ∷ rows) old new =
      elim (Bool-cases (elem row.span_id existing)) [
        | inl e ↦
            rw (old row.span_id e)
              (candidates_of-again existing scored rows old (λ id m. new id (rw e m)))
        | inr e ↦ elim (Option-cases (candidate_of h def name events row)) [
          | inl q ↦
              let rest = candidates_of-again existing scored rows old (λ id m.
                new id (rw e (rw (candidates_of-skip row (keep (is_fresh existing) rows) q) m))) in
              elim (Bool-cases (elem row.span_id scored)) [
                | inl t ↦ rw t rest
                | inr t ↦ rw t (candidates_of-skip row (keep (is_fresh scored) rows) q ∙ rest)
              ]
          | inr (c, q) ↦
              let next = candidates_of-next row (keep (is_fresh existing) rows) c q in
              let here : elem row.span_id scored ≡ true =
                new row.span_id
                  (rw e (rw (next, span-candidate_of row c q, beq_self row.span_id) refl)) in
              rw here (
                candidates_of-again existing scored rows old
                  (λ id m. new id (rw e (rw (next, m) (ground (arith, m))))))
        ]
      ]

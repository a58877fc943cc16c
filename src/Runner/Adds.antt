-- ===== src/Runner/Adds.antt =====
-- What the scoring part of a run adds to the results.
use trace_bloom.Base.{
  ◌-◌, ◌≡◌, refl, ap, ◌⊎◌, inl, inr, String, List, [], ◌∷◌, ◌++◌, map, keep, arith, length,
  string_eq, Option-cases,
}
use mathlib.Core.List.{append-nil}
use trace_bloom.Dict.{Dict}
use trace_bloom.Dict
use trace_bloom.Results.{
  CachedResult, EvalOutcome, EvalResultRow, build_result_row, build_row_from_cache,
}
use trace_bloom.Runner.{SpanRow, SpanEventRow, EvalDefinition, Candidate}
use trace_bloom.Runner.Scoring.{
  group_events, candidates_of, unique_hashes, cache_of, to_score, rep_from, score_all, result_rows,
  row_of,
}
use trace_bloom.Runner.Run.{
  Result, ok, err, Store, continue_with, Services, BuiltEvaluator, EvalRunSummary, ask, id_of,
  is_sampled, is_fresh, insert_eval_results, score_fresh, score_sampled,
}

pub Result-cases {ℓ} :
    {A : Type ℓ} (r : Result A) → ((a : A) × (r ≡ ok a)) ⊎ ((e : String) × (r ≡ err e))
Result-cases (ok a) = inl (a, refl)
Result-cases (err e) = inr (e, refl)

abbrev pub row_span : EvalResultRow → String
row_span r = r.span_id

abbrev pub candidate_span : Candidate → String
candidate_span c = c.row_params.span.span_id

result_rows-span :
    (cache : Dict String CachedResult) (outcomes : Dict String EvalOutcome) (cs : List Candidate)
    → map row_span (result_rows cache outcomes cs).rows ≡ map candidate_span cs
unfolding result_rows build_result_row build_row_from_cache
result_rows-span cache outcomes [] = refl
result_rows-span cache outcomes (c ∷ cs) = elim (Option-cases (Dict.get c.hash cache)) [
  | inl e ↦
      rw (e, row_of)
        (ap (λ (l : List String). candidate_span c ∷ l) (result_rows-span cache outcomes cs))
  | inr (hit, e) ↦
      rw (e, row_of)
        (ap (λ (l : List String). candidate_span c ∷ l) (result_rows-span cache outcomes cs))
]

insert-cases :
    (sv : Services) (rows : List EvalResultRow) (s : Store)
    → (insert_eval_results sv rows s ≡ (ok tt, record s { results = s.results ++ rows }))
      ⊎ ((e : String) × (insert_eval_results sv rows s ≡ (err e, s)))
insert-cases sv [] s = inl (ground (arith, append-nil s.results))
insert-cases sv (r ∷ rows) s = elim (Option-cases sv.insert_error) [
  | inl e ↦ inl (rw e)
  | inr (m, e) ↦ inr (m, rw e)
]

module _ (sv : Services) (def : EvalDefinition) (built : BuiltEvaluator) where
  abbrev pub candidates : List SpanRow → List SpanEventRow → List Candidate
  candidates fresh events =
      candidates_of sv.host def built.evaluation_name (group_events [] events) fresh

  -- A step that throws has written nothing; one that returns has added a row for each candidate.
  abbrev pub Adds : String → List SpanRow → Store → Result EvalRunSummary × Store → Type 0
  Adds id fresh s out =
      ((e : String) × (out ≡ (err e, s)))
      ⊎ ((events : List SpanEventRow) × (rows : List EvalResultRow) × (done : EvalRunSummary)
          × (done.eval_id ≡ id)
          × (ask sv.span_events (map id_of fresh) ≡ ok events)
          × (out ≡ (ok done, record s { results = s.results ++ rows }))
          × (map row_span rows ≡ map candidate_span (candidates fresh events)))

  score_fresh-Adds :
      (summary : EvalRunSummary) (fresh : List SpanRow) (s : Store)
      → Adds summary.eval_id fresh s (score_fresh sv def built summary fresh s)
  unfolding score_fresh result_rows
  score_fresh-Adds summary fresh s = elim (Result-cases (ask sv.span_events (map id_of fresh))) [
    | inr (e, q) ↦ inl (e, rw (q, score_fresh))
    | inl (events, q) ↦
        let cs = candidates fresh events in
        elim (Result-cases (ask sv.cached_results (unique_hashes cs))) [
          | inr (e, r) ↦ inl (e, rw (q, r, score_fresh))
          | inl (hits, r) ↦
              let cache = cache_of [] hits in
              let outcomes =
                score_all built.evaluate (rep_from [] cs) (sv.completed (to_score cache cs)) [] in
              let scored = result_rows cache outcomes cs in
              elim (insert-cases sv scored.rows s) [
                | inr (e, t) ↦ inl (e, rw (q, r, t, score_fresh))
                | inl t ↦ inr (
                  events,
                  scored.rows,
                  record summary {
                    scored = length scored.rows;
                    cached = scored.cached;
                    errors = scored.errors;
                  },
                  refl,
                  q,
                  rw (q, r, t, score_fresh),
                  result_rows-span cache outcomes cs,
                )
              ]
        ]
  ]

  abbrev pub fresh_of : List String → List SpanRow → List SpanRow
  fresh_of existing rows = keep (is_fresh existing) (keep (is_sampled sv def) rows)

  nothing-Adds : (summary : EvalRunSummary) (s : Store) → Adds summary.eval_id [] s (ok summary, s)
  unfolding candidates_of
  nothing-Adds summary s =
      inr ([], [], summary, refl, refl, ground (arith, append-nil s.results), refl)

  abbrev pub AddsFresh : String → List SpanRow → Store → Result EvalRunSummary × Store → Type 0
  AddsFresh id rows s out =
      ((e : String) × (out ≡ (err e, s)))
      ⊎ ((existing : List String) × (ask sv.existing_span_ids
              (map id_of (keep (is_sampled sv def) rows))
            ≡ ok existing)
          × Adds id (fresh_of existing rows) s out)

  pub score_sampled-Adds :
      (summary : EvalRunSummary) (rows : List SpanRow) (s : Store)
      → AddsFresh summary.eval_id rows s (score_sampled sv def built summary rows s)
  unfolding score_sampled
  score_sampled-Adds summary rows s =
      elim (Result-cases (ask sv.existing_span_ids (map id_of (keep (is_sampled sv def) rows)))) [
        | inr (e, q) ↦ inl (e, rw (q, score_sampled))
        | inl (existing, q) ↦ inr (
          existing,
          q,
          rw (q, score_sampled)
              (by_fresh (fresh_of existing rows) (record summary {
                skipped_existing =
                    length (keep (is_sampled sv def) rows) - length (fresh_of existing rows);
              })),
        )
      ]
    where
      by_fresh :
          (fresh : List SpanRow) (counted : EvalRunSummary)
          → Adds counted.eval_id fresh s (
              continue_with
                (ok tt, s)
                (λ u. elim fresh [
                  | [] ↦ (λ t. (ok counted, t))
                  | r ∷ rs ↦ score_fresh sv def built counted (r ∷ rs)
                ]))
      by_fresh [] counted = nothing-Adds counted s
      by_fresh (r ∷ rs) counted = score_fresh-Adds counted (r ∷ rs) s

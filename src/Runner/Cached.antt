-- ===== src/Runner/Cached.antt =====
-- Scoring each content once, and reusing stored scores, against scoring every span by itself.
use trace_bloom.Base.{
  ◌≡◌, refl, ap, ◌∙◌, String, true, Option, none, some, List, [], ◌∷◌, map, arith, if◌then◌else◌,
  elem, string_eq, Bool-cases, Option-cases, inl, inr, ◌==◌, beq_self,
}
use mathlib.Core.List.{Memᴰ}
use mathlib.Core.List.Memᴰ
use trace_bloom.Dict.{Dict}
use trace_bloom.Dict
use trace_bloom.Results.{
  CachedResult, EvalInput, EvalOutcome, EvalResultRow, build_result_row, build_row_from_cache,
}
use trace_bloom.Runner.{Candidate, Evaluation}
use trace_bloom.Runner.Scoring.{
  hash_of, to_score, rep_from, outcome_of, score_hash, score_all, result_rows, row_of,
}
use trace_bloom.Runner.Unique.{elem-to_score}

abbrev find_hash : String → List Candidate → Option Candidate
find_hash k [] = none
find_hash k (c ∷ cs) = if c.hash == k then some c else find_hash k cs

abbrev first_of {ℓ} : {A : Type ℓ} → Option A → Option A → Option A
first_of none o = o
first_of (some a) o = some a

get-rep_from :
    (k : String) (reps : Dict String Candidate) (cs : List Candidate)
    → Dict.get k (rep_from reps cs) ≡ first_of (Dict.get k reps) (find_hash k cs)
unfolding rep_from Dict.has
get-rep_from k reps [] = ground arith
get-rep_from k reps (c ∷ cs) = elim (Option-cases (Dict.get c.hash reps)) [
  | inl e ↦ rw e (get-rep_from k (Dict.set c.hash c reps) cs ∙ new k c reps e)
  | inr (d, e) ↦ rw e (get-rep_from k reps cs ∙ old k c reps d e)
]
  where
    new :
        (k : String) (c : Candidate) (reps : Dict String Candidate)
        → Dict.get c.hash reps ≡ none
        → first_of (Dict.get k (Dict.set c.hash c reps)) (find_hash k cs)
          ≡ first_of (Dict.get k reps) (if c.hash == k then some c else find_hash k cs)
    new k c reps e = ground (arith, Dict.get-set c.hash k c reps, string_eq.beq_iff c.hash k)

    old :
        (k : String) (c : Candidate) (reps : Dict String Candidate) (d : Candidate)
        → Dict.get c.hash reps ≡ some d
        → first_of (Dict.get k reps) (find_hash k cs)
          ≡ first_of (Dict.get k reps) (if c.hash == k then some c else find_hash k cs)
    old k c reps d e = ground (arith, string_eq.beq_iff c.hash k)

find_hash-Memᴰ :
    (c : Candidate) (cs : List Candidate)
    → Memᴰ c cs
    → (d : Candidate) × (find_hash c.hash cs ≡ some d) × Memᴰ d cs × (d.hash ≡ c.hash)
find_hash-Memᴰ c [] m = absurd (Memᴰ.not-nil m)
find_hash-Memᴰ c (d ∷ cs) m = elim (Memᴰ.cases_cons m) [
  | inl same ↦ (d, rw (← same) (rw (beq_self c.hash)), Memᴰ.head refl, rw same refl)
  | inr rest ↦ elim (Bool-cases (d.hash == c.hash)) [
    | inl e ↦ (d, rw e, Memᴰ.head refl, (string_eq.beq_iff d.hash c.hash).0 e)
    | inr e ↦
        let (f, found, there, same) = find_hash-Memᴰ c cs rest in
        (f, rw e found, Memᴰ.tail there, same)
  ]
]

module _ (evaluate : EvalInput → Evaluation) (reps : Dict String Candidate) (k : String)
    (rep : Candidate) (h : Dict.get k reps ≡ some rep) where
  get-score_hash :
      (x : String) (outcomes : Dict String EvalOutcome)
      → Dict.get k (score_hash evaluate reps x outcomes)
        ≡ (if x == k then some (outcome_of (evaluate rep.input)) else Dict.get k outcomes)
  unfolding score_hash
  get-score_hash x outcomes = elim (Option-cases (Dict.get x reps)) [
    | inl e ↦ rw (e, score_hash) (ground (arith, string_eq.beq_iff x k))
    | inr (r, e) ↦
        rw (e, score_hash)
          (ground (
            arith,
            Dict.get-set x k (outcome_of (evaluate r.input)) outcomes,
            string_eq.beq_iff x k,
          ))
  ]

  get-score_all :
      (ended : List String) (outcomes : Dict String EvalOutcome)
      → Dict.get k (score_all evaluate reps ended outcomes)
        ≡ (if elem k ended then some (outcome_of (evaluate rep.input)) else Dict.get k outcomes)
  unfolding score_all
  get-score_all [] outcomes = refl
  get-score_all (x ∷ ended) outcomes =
      ground (
        arith,
        get-score_all ended (score_hash evaluate reps x outcomes),
        get-score_hash x outcomes,
      )

elem-hash_of :
    (c : Candidate) (ds : List Candidate) → Memᴰ c ds → elem c.hash (map hash_of ds) ≡ true
elem-hash_of c [] m = absurd (Memᴰ.not-nil m)
elem-hash_of c (d ∷ ds) m = elim (Memᴰ.cases_cons m) [
  | inl same ↦ rw (← same) (rw (beq_self c.hash))
  | inr rest ↦ ground (arith, elem-hash_of c ds rest)
]

-- The row of a span that is scored by itself.
abbrev pub own_row : (EvalInput → Evaluation) → Candidate → EvalResultRow
own_row evaluate c = build_result_row c.row_params (outcome_of (evaluate c.input))

-- The same row where its content was stored, which only its metadata shows.
abbrev pub marked_row : Dict String CachedResult → Candidate → EvalResultRow → EvalResultRow
marked_row cache c row =
    if Dict.has c.hash cache then record row { metadata_json = "{\"cached\":true}" } else row

-- A stored result says what the row says, and the row has no error.
pub record IsStored (hit : CachedResult) (row : EvalResultRow) : Type 0 where
  pub score_value : hit.score_value ≡ row.score_value
  pub score_label : hit.score_label ≡ row.score_label
  pub passed : hit.passed ≡ row.passed
  pub explanation : hit.explanation ≡ row.explanation
  pub no_error : row.error_type ≡ ""

build_row_from_cache-IsStored :
    (evaluate : EvalInput → Evaluation) (c : Candidate) (hit : CachedResult)
    → IsStored hit (own_row evaluate c)
    → build_row_from_cache c.row_params hit
      ≡ record (own_row evaluate c) { metadata_json = "{\"cached\":true}" }
unfolding build_row_from_cache build_result_row
build_row_from_cache-IsStored evaluate c hit h =
    ground (arith, h.score_value, h.score_label, h.passed, h.explanation, h.no_error)

module _ (evaluate : EvalInput → Evaluation) (cache : Dict String CachedResult)
    (cs : List Candidate) (ended : List String)
    (all_ended : (hash : String) → elem hash ended ≡ elem hash (to_score cache cs))
    (same_hash : (c d : Candidate)
      → Memᴰ c cs
      → Memᴰ d cs
      → c.hash ≡ d.hash
      → evaluate c.input ≡ evaluate d.input)
    (stored : (c : Candidate) (hit : CachedResult)
      → Memᴰ c cs
      → Dict.get c.hash cache ≡ some hit
      → IsStored hit (own_row evaluate c)) where
  outcomes : Dict String EvalOutcome
  outcomes = score_all evaluate (rep_from [] cs) ended []

  outcome_of-ended :
      (c : Candidate)
      → Memᴰ c cs
      → Dict.get c.hash cache ≡ none
      → Dict.get c.hash outcomes ≡ some (outcome_of (evaluate c.input))
  unfolding outcomes Dict.has
  outcome_of-ended c m missing =
      let (rep, found, there, same) = find_hash-Memᴰ c cs m in
      let stored : Dict.get c.hash (rep_from [] cs) ≡ some rep =
        get-rep_from c.hash [] cs ∙ none_first found in
      let scored : elem c.hash ended ≡ true =
        ground (arith, all_ended c.hash, elem-to_score c.hash cache cs, elem-hash_of c cs m) in
      get-score_all evaluate (rep_from [] cs) c.hash rep stored ended []
      ∙ rw (scored, same_hash rep c there m same)
    where
      none_first :
          {o : Option Candidate} {rep : Candidate} → o ≡ some rep → first_of none o ≡ some rep
      none_first h = h

  row_of-direct :
      (c : Candidate)
      → Memᴰ c cs
      → row_of cache outcomes c ≡ marked_row cache c (own_row evaluate c)
  unfolding Dict.has
  row_of-direct c m = elim (Option-cases (Dict.get c.hash cache)) [
    | inr (hit, e) ↦
        rw (e, row_of, marked_row) (build_row_from_cache-IsStored evaluate c hit (stored c hit m e))
    | inl e ↦ rw (e, row_of, marked_row, own_row, outcome_of-ended c m e)
  ]

  rows-map :
      (ds : List Candidate)
      → ((c : Candidate) → Memᴰ c ds → Memᴰ c cs)
      → (result_rows cache outcomes ds).rows ≡ map (λ c. marked_row cache c (own_row evaluate c)) ds
  unfolding result_rows
  rows-map [] sub = refl
  rows-map (d ∷ ds) sub =
      ap (λ row. row ∷ (result_rows cache outcomes ds).rows)
        (row_of-direct d (sub d (Memᴰ.head refl)))
      ∙ ap (◌∷◌ (marked_row cache d (own_row evaluate d)))
          (rows-map ds (λ c m. sub c (Memᴰ.tail m)))

  -- Scoring each content once, in any order in which the evaluations end, and reusing stored results,
  -- gives in the order of the spans the row that scoring each span by itself would give, but for the
  -- metadata of a span whose content was stored, which says so: where no two spans of one hash would
  -- be evaluated differently, and a stored result is what evaluating the span would give, without
  -- an error.
  pub result_rows-direct :
      (result_rows cache (score_all evaluate (rep_from [] cs) ended []) cs).rows
      ≡ map (λ c. marked_row cache c (own_row evaluate c)) cs
  unfolding outcomes
  result_rows-direct = rows-map cs (λ c m. m)

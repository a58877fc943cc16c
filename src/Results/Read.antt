-- ===== src/Results/Read.antt =====
-- The attributes of an evaluation event, read back into a row.
use trace_bloom.Base.{
  ◌≡◌, refl, String, true, false, ◌&&◌, not, Option, none, some, if◌then◌else◌, or_else, ◌∷◌, ◌++◌,
  arith, string_eq, Option-cases, Bool-cases, inl, inr, ◌==◌, ◌∙◌, sym,
}
use trace_bloom.Dict.{Dict}
use trace_bloom.Dict
use trace_bloom.Text.{is_empty}
use trace_bloom.Json.{
  Number, zero_score, at_least, Value, text, number, Json, object, truthy, text_or_empty,
  number_or_zero,
}
use trace_bloom.Results.{EvalResultRow}
use trace_bloom.Results.Events.{
  name_key, score_key, label_key, explanation_key, error_key, attribute,
}
use trace_bloom.Results.Promote.{SdkEvaluationEventRow, to_sdk_result_row, sdk_row, sdk_row_of}

is_empty-eq : (s : String) → is_empty s ≡ true → s ≡ ""
unfolding is_empty
is_empty-eq String.[] h = refl
is_empty-eq (String.◌∷◌ c s) h = absurd (cc)

no_message : (o : Option String) → truthy o ≡ false → or_else o "" ≡ ""
no_message none h = refl
no_message (some s) h = is_empty-eq s (ground arith)

-- Reading an attribute back.
module _ (k : String) (o : Option String) (rest : Dict String Value) where
  get-attribute :
      text_or_empty (Dict.get k rest) ≡ ""
      → text_or_empty (Dict.get k (attribute k o ++ rest)) ≡ or_else o ""
  unfolding Dict.get
  get-attribute h = elim (Option-cases o) [
    | inl e ↦ rw e h
    | inr (s, e) ↦ elim (Bool-cases (is_empty s)) [
      | inl m ↦ rw (e, m) (h ∙ sym (is_empty-eq s m))
      | inr m ↦ rw (e, m) (ground (arith, string_eq.beq_iff k k))
    ]
  ]

  get-attribute_ne :
      (j : String) → (j == k) ≡ false → Dict.get k (attribute j o ++ rest) ≡ Dict.get k rest
  unfolding Dict.get
  get-attribute_ne j h = elim (Bool-cases (truthy o)) [ inl e ↦ rw (e, h) | inr e ↦ rw e ]

  get-attribute_falsy :
      (j : String) → truthy o ≡ false → Dict.get k (attribute j o ++ rest) ≡ Dict.get k rest
  get-attribute_falsy j h = rw h

-- The attributes of an event with a score or an error, and with `rest` behind them.
abbrev pub body_of :
    String
    → Option String
    → Number
    → Option String
    → Option String
    → Dict String Value
    → Dict String Value
body_of name error score label reason rest =
    (name_key, text name)
    ∷ ((if truthy error
          then attribute error_key error
          else (score_key, number score) ∷ attribute label_key label)
        ++ (attribute explanation_key reason ++ rest))

-- What stands behind has none of the four keys that are read.
abbrev pub Silent : Dict String Value → Type 0
Silent rest =
    (Dict.get error_key rest ≡ none)
    × (Dict.get score_key rest ≡ none)
    × (Dict.get label_key rest ≡ none)
    × (Dict.get explanation_key rest ≡ none)

module _ (name : String) (error : Option String) (score : Number) (label reason : Option String)
    (rest : Dict String Value) (silent : Silent rest) where
  abbrev body : Dict String Value
  body = body_of name error score label reason rest

  abbrev tail : Dict String Value
  tail = attribute explanation_key reason ++ rest

  get-error : text_or_empty (Dict.get error_key body) ≡ or_else error ""
  unfolding Dict.get
  get-error = elim (Bool-cases (truthy error)) [
    | inl e ↦ rw e
    | inr e ↦ ground (arith, no_message error e)
  ]

  get-score :
      number_or_zero (Dict.get score_key body) ≡ (if truthy error then zero_score else score)
  unfolding Dict.get
  get-score = ground arith

  get-label :
      text_or_empty (Dict.get label_key body) ≡ (if truthy error then "" else or_else label "")
  unfolding Dict.get
  get-label = elim (Bool-cases (truthy error)) [
    | inl e ↦ ground arith
    | inr e ↦ rw e (get-attribute label_key label tail (ground arith))
  ]

  get-explanation : text_or_empty (Dict.get explanation_key body) ≡ or_else reason ""
  unfolding Dict.get
  get-explanation = elim (Bool-cases (truthy error)) [
    | inl e ↦ rw e (get-attribute explanation_key reason rest (ground arith))
    | inr e ↦ elim (Bool-cases (truthy label)) [
      | inl f ↦ rw (e, f) (get-attribute explanation_key reason rest (ground arith))
      | inr f ↦ rw (e, f) (get-attribute explanation_key reason rest (ground arith))
    ]
  ]

-- The columns of a row that an event determines.
abbrev pub Shows :
    EvalResultRow → String → Option String → Number → Option String → Option String → Type 0
Shows r name error score label reason =
    (r.evaluation_name ≡ name)
    × (r.error_type ≡ or_else error "")
    × (r.score_value ≡ (if truthy error then zero_score else score))
    × (r.score_label ≡ (if truthy error then "" else or_else label ""))
    × (r.explanation ≡ or_else reason "")
    × (r.passed ≡ (not (truthy error) && at_least 1 2 score))

pub is_empty-or_else : (o : Option String) → is_empty (or_else o "") ≡ not (truthy o)
unfolding is_empty
is_empty-or_else none = refl
is_empty-or_else (some s) = ground arith

sdk_row-Shows :
    (row : SdkEvaluationEventRow) (body : Dict String Value) (name : String) (error : Option String)
    (score : Number) (label reason : Option String)
    → text_or_empty (Dict.get error_key body) ≡ or_else error ""
    → number_or_zero (Dict.get score_key body) ≡ (if truthy error then zero_score else score)
    → text_or_empty (Dict.get label_key body) ≡ (if truthy error then "" else or_else label "")
    → text_or_empty (Dict.get explanation_key body) ≡ or_else reason ""
    → Shows (sdk_row row body name) name error score label reason
unfolding sdk_row
sdk_row-Shows row body name error score label reason e s l x = elim (Bool-cases (truthy error)) [
  | inl t ↦ rw (e, s, l, x, is_empty-or_else error, t) (refl, refl, refl, refl, refl, refl)
  | inr t ↦
      rw (e, s, l, x, is_empty-or_else error, t)
        (refl, sym (no_message error t), refl, refl, refl, refl)
]

module _ (parse : String → Option Json) (row : SdkEvaluationEventRow) (name : String)
    (error : Option String) (score : Number) (label reason : Option String)
    (rest : Dict String Value) (named : is_empty name ≡ false) (silent : Silent rest)
    (parsed : parse row.body ≡ some (object (body_of name error score label reason rest))) where
  pub row_of_body :
      (r : EvalResultRow) × (to_sdk_result_row parse row ≡ some r)
      × Shows r name error score label reason
  unfolding to_sdk_result_row sdk_row_of Dict.get
  row_of_body =
      let b = body_of name error score label reason rest in
      (
        sdk_row row b name,
        rw (parsed, named),
        sdk_row-Shows row b name error score label reason
            (get-error name error score label reason rest silent)
            (get-score name error score label reason rest silent)
            (get-label name error score label reason rest silent)
            (get-explanation name error score label reason rest silent),
      )

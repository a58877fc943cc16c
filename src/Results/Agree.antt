-- ===== src/Results/Agree.antt =====
use mathlib.Core.List.{append-nil}
-- Rows promoted from events, compared with what was recorded.
use trace_bloom.Base.{
  ◌≡◌, refl, String, true, false, Option, some, if◌then◌else◌, or_else, ap, ◌||◌, [], ◌∷◌, ◌++◌,
  arith, string_eq, is_some, Bool-cases, inl, inr, ◌∙◌,
}
use trace_bloom.Dict.{Dict}
use trace_bloom.Dict
use trace_bloom.Text.{is_empty}
use trace_bloom.Json.{zero_score, Value, Json, object, truthy}
use trace_bloom.Results.{EvalResultRow, EvalOutcome, RowParams, build_result_row}
use trace_bloom.Results.Events.{
  explanation_key, EvaluationRecord, Recorded, record_evaluation, evaluation_result_event,
  record_attributes, attribute, to_evaluation_result_event, response_key,
}
use trace_bloom.Results.Read.{body_of, Silent, Shows, is_empty-or_else, row_of_body}
use trace_bloom.Results.Promote.{SdkEvaluationEventRow, to_sdk_result_row}

record_attributes_lem :
    (name : String) (given : EvaluationRecord)
    → (is_some given.score || truthy given.error_type) ≡ true
    → record_attributes name given
      ≡ body_of name given.error_type (or_else given.score zero_score) given.label given.reason []
unfolding record_attributes
record_attributes_lem name given meant =
    ground (arith, append-nil (attribute explanation_key given.reason))

silent : Silent []
unfolding Dict.get
silent = (refl, refl, refl, refl)

-- An evaluation recorded on a recording span, with a name and with a score or an error, is one more
-- event of the span. Where the body of that event parses to its attributes, the event is promoted to
-- a row that shows the name, the error, or the score with its label, the reason, and that it passed
-- exactly without an error and with a score of at least one half.
pub record_evaluation-promoted :
    (parse : String → Option Json) (row : SdkEvaluationEventRow) (name : String)
    (given : EvaluationRecord) (span : Recorded)
    → is_empty name ≡ false
    → span.recording ≡ true
    → (is_some given.score || truthy given.error_type) ≡ true
    → parse row.body ≡ some (object (record_attributes name given))
    → (record_evaluation name given (some span)
        ≡ some (
            some (record span {
              events =
                  span.events
                  ++ record {
                    name = evaluation_result_event;
                    attributes = record_attributes name given;
                  }
                    ∷ [];
            })))
      × (r : EvalResultRow) × (to_sdk_result_row parse row ≡ some r)
      × Shows r name given.error_type (or_else given.score zero_score) given.label given.reason
unfolding record_evaluation
record_evaluation-promoted parse row name given span named recording meant parsed =
    let attributes = record_attributes_lem name given meant in
    let (r, promoted, shows) =
      row_of_body parse row name given.error_type (or_else given.score zero_score) given.label
        given.reason [] named silent
        (parsed ∙ ap (λ (b : Dict String Value). some (object b)) attributes) in
    (ground arith, r, promoted, shows)

Silent-response : (response_id : String) → Silent (attribute response_key (some response_id))
unfolding Dict.get
Silent-response response_id = elim (Bool-cases (is_empty response_id)) [
  | inl e ↦ rw e (refl, refl, refl, refl)
  | inr e ↦ rw e (refl, refl, refl, refl)
]

-- The event of an outcome says of it what the outcome's own row says: where the event's body parses
-- to its attributes and the evaluation has a name, the promoted row has the score, error and
-- explanation of the row that is stored directly, and its label where there is no error.
pub to_evaluation_result_event-row :
    (parse : String → Option Json) (row : SdkEvaluationEventRow) (params : RowParams)
    (outcome : EvalOutcome) (response_id : String)
    → let direct = build_result_row params outcome in
      is_empty params.evaluation_name ≡ false
      → parse row.body
        ≡ some (
            object
              (to_evaluation_result_event params.evaluation_name outcome response_id).attributes)
      → (r : EvalResultRow) × (to_sdk_result_row parse row ≡ some r)
        × (r.evaluation_name ≡ direct.evaluation_name)
        × (r.score_value ≡ direct.score_value)
        × (r.error_type ≡ direct.error_type)
        × (r.explanation ≡ direct.explanation)
        × (r.score_label ≡ (if is_empty direct.error_type then direct.score_label else ""))
unfolding to_evaluation_result_event build_result_row
to_evaluation_result_event-row parse row params outcome response_id named parsed =
    let (r, promoted, (name, error, score, label, reason, passed)) =
      row_of_body parse row params.evaluation_name outcome.error_type outcome.score outcome.label
        outcome.reason (attribute response_key (some response_id)) named
        (Silent-response response_id) parsed in
    (
      r,
      promoted,
      name,
      score,
      error,
      reason,
      label ∙ ground (arith, is_empty-or_else outcome.error_type),
    )

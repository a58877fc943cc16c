-- ===== src/Results/Events.antt =====
-- packages/eval/src/result.ts and packages/sdk-ts/src/evals.ts: the OpenTelemetry event of an
-- evaluation, as the evaluators and as an application's code emit it. SHA-256 is a parameter.
use trace_bloom.Base.{
  ℕ, String, Bool, ◌&&◌, not, Option, none, some, if◌then◌else◌, or_else, List, [], ◌∷◌, ◌++◌,
  is_some,
}
use trace_bloom.Dict.{Dict}
use trace_bloom.Text.{codes}
use trace_bloom.Text.Decimal.{print}
use trace_bloom.Json.{Number, Value, text, number, truthy}
use trace_bloom.Results.{EvalOutcome}

-- EVALUATION_RESULT_EVENT.
abbrev pub evaluation_result_event : String
evaluation_result_event = "gen_ai.evaluation.result"

-- EvaluationAttr.
abbrev pub name_key : String
name_key = "gen_ai.evaluation.name"

abbrev pub score_key : String
score_key = "gen_ai.evaluation.score.value"

abbrev pub label_key : String
label_key = "gen_ai.evaluation.score.label"

abbrev pub explanation_key : String
explanation_key = "gen_ai.evaluation.explanation"

abbrev pub error_key : String
error_key = "error.type"

abbrev pub response_key : String
response_key = "gen_ai.response.id"

-- EvaluationResultEvent.
pub record EvaluationResultEvent : Type 0 where
  pub name : String
  pub attributes : Dict String Value

-- `if (s) attributes[key] = s`, for a key that is new.
abbrev pub attribute : String → Option String → Dict String Value
attribute key s = if truthy s then (key, text (or_else s "")) ∷ [] else []

-- toEvaluationResultEvent.
unfoldable pub to_evaluation_result_event : String → EvalOutcome → String → EvaluationResultEvent
to_evaluation_result_event evaluation_name outcome response_id = record {
  name = evaluation_result_event;
  attributes =
      (name_key, text evaluation_name)
      ∷ ((if truthy outcome.error_type
            then attribute error_key outcome.error_type
            else (score_key, number outcome.score) ∷ attribute label_key outcome.label)
          ++ (attribute explanation_key outcome.reason
              ++ attribute response_key (some response_id)));
}

-- The text that contentHash hashes, with its two NUL characters.
unfoldable pub hashed_text : ℕ → String → String → List ℕ
hashed_text eval_version input output =
    print eval_version ++ (0 ∷ (codes input ++ (0 ∷ codes output)))

-- contentHash.
unfoldable pub content_hash : (List ℕ → String) → ℕ → String → String → String
unfolding hashed_text
content_hash sha256 eval_version input output = sha256 (hashed_text eval_version input output)

-- EvaluationRecord.
pub record EvaluationRecord : Type 0 where
  pub score : Option Number
  pub label : Option String
  pub reason : Option String
  pub error_type : Option String

-- A span that can be recorded on: whether it is recording, and its events.
pub record Recorded : Type 0 where
  pub recording : Bool
  pub events : List EvaluationResultEvent

-- The attributes that recordEvaluation builds.
unfoldable pub record_attributes : String → EvaluationRecord → Dict String Value
record_attributes name given =
    (name_key, text name)
    ∷ ((if truthy given.error_type then attribute error_key given.error_type else elim given.score [
      | none ↦ []
      | some score ↦ (score_key, number score) ∷ attribute label_key given.label
    ])
        ++ attribute explanation_key given.reason)

-- recordEvaluation: none is the TypeError. The target is the span that is given, or else the active
-- one, or none.
unfoldable pub record_evaluation :
    String → EvaluationRecord → Option Recorded → Option (Option Recorded)
unfolding record_attributes
record_evaluation name given target =
    if not (is_some given.score) && not (truthy given.error_type)
    then none
    else some (elim target [
      | none ↦ none
      | some span ↦ some (
          if span.recording
          then record span {
            events =
                span.events
                ++ record {
                  name = evaluation_result_event;
                  attributes = record_attributes name given;
                }
                  ∷ [];
          }
          else span)
    ])

-- ===== src/Results/Tests.antt =====
-- Runs and instances.
use trace_bloom.Base.{
  ◌≡◌, refl, String, true, false, Option, none, some, [], ◌∷◌, if◌then◌else◌, is_some,
}
use trace_bloom.Text.{is_empty}
use trace_bloom.Json.{Number, Json, object}
use trace_bloom.Results.{EvaluatedSpan, EvalOutcome, RowParams, EvalResultRow, build_result_row}
use trace_bloom.Results.Events.{
  EvaluationRecord, Recorded, record_attributes, record_evaluation, evaluation_result_event,
  to_evaluation_result_event, content_hash,
}
use trace_bloom.Results.Promote.{SdkEvaluationEventRow, to_sdk_result_row}
use trace_bloom.Results.Read.{Shows}
use trace_bloom.Results.Agree.{record_evaluation-promoted, to_evaluation_result_event-row}

abbrev three_quarters : Number
three_quarters = record { negative = false; num = 3; den = 4 }

abbrev feedback : EvaluationRecord
feedback = record {
  score = some three_quarters;
  label = some "thumbs_up";
  reason = none;
  error_type = none;
}

abbrev event_row : SdkEvaluationEventRow
event_row = record {
  trace_id = "t";
  span_id = "s";
  body = "{}";
  response_id = "r";
  request_model = "m";
  operation_name = "chat";
  service_name = "app";
  span_start_time = "now";
  prompt_version = "";
}

-- A parser for the one body of these tests.
abbrev parse_feedback : String → Option Json
parse_feedback body = some (object (record_attributes "user_feedback" feedback))

abbrev live_span : Recorded
live_span = record { recording = true; events = [] }

-- A record without a score or an error throws, and a span that is not recording is left alone.
record_evaluation-throws :
    record_evaluation "x"
      (record { score = none; label = some "a"; reason = none; error_type = some "" })
      (some live_span)
    ≡ none
unfolding record_evaluation is_empty
record_evaluation-throws = refl

record_evaluation-ended :
    record_evaluation "x" feedback (some (record { recording = false; events = [] }))
    ≡ some (some (record { recording = false; events = [] }))
unfolding record_evaluation is_empty
record_evaluation-ended = refl

content_hash_run :
    content_hash (λ cs. if is_some (some cs) then "digest" else "") 3 "a" "b" ≡ "digest"
unfolding content_hash
content_hash_run = refl

record_evaluation-promoted_example :
    (record_evaluation "user_feedback" feedback (some live_span)
      ≡ some (
          some (record {
            recording = true;
            events =
                record {
                  name = evaluation_result_event;
                  attributes = record_attributes "user_feedback" feedback;
                }
                ∷ [];
          })))
    × (r : EvalResultRow) × (to_sdk_result_row parse_feedback event_row ≡ some r)
    × Shows r "user_feedback" none three_quarters (some "thumbs_up") none
unfolding is_empty
record_evaluation-promoted_example =
    record_evaluation-promoted parse_feedback event_row "user_feedback" feedback live_span refl refl
      refl refl

abbrev scored_span : EvaluatedSpan
scored_span = record {
  trace_id = "t";
  span_id = "s";
  response_id = "r";
  request_model = "m";
  operation_name = "chat";
  service_name = "app";
  prompt_version = "v2";
  span_start_time = "now";
  attributes = object [];
}

abbrev params : RowParams
params = record {
  eval_id = "e";
  eval_version = 1;
  evaluator_type = "deterministic";
  evaluation_name = "short";
  span = scored_span;
  variant = "v2";
  content_hash = "h";
}

abbrev failed : EvalOutcome
failed = record {
  score = three_quarters;
  passed = false;
  label = none;
  reason = some "timeout";
  metadata = none;
  error_type = some "TimeoutError";
}

abbrev parse_failed : String → Option Json
parse_failed body = some (object (to_evaluation_result_event "short" failed "r").attributes)

to_evaluation_result_event-row_example :
    let direct = build_result_row params failed in
    (r : EvalResultRow) × (to_sdk_result_row parse_failed event_row ≡ some r)
    × (r.evaluation_name ≡ direct.evaluation_name)
    × (r.score_value ≡ direct.score_value)
    × (r.error_type ≡ direct.error_type)
    × (r.explanation ≡ direct.explanation)
    × (r.score_label ≡ (if is_empty direct.error_type then direct.score_label else ""))
unfolding is_empty
to_evaluation_result_event-row_example =
    to_evaluation_result_event-row parse_failed event_row params failed "r" refl refl

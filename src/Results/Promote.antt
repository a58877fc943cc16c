-- ===== src/Results/Promote.antt =====
-- apps/eval-runner/src/sdk-results.ts: evaluation events of an application become rows.
use trace_bloom.Base.{
  ℕ, String, ◌&&◌, not, Option, none, some, if◌then◌else◌, List, [], ◌∷◌, ◌++◌, length, string_eq,
}
use trace_bloom.Dict.{Dict}
use trace_bloom.Dict
use trace_bloom.Text.{is_empty, ◌+++◌}
use trace_bloom.Json.{
  zero_score, at_least, Value, Json, object, array, scalar, text_or_empty, number_or_zero,
}
use trace_bloom.Results.{EvalResultRow}
use trace_bloom.Results.Events.{name_key, score_key, label_key, explanation_key, error_key}

-- SdkEvaluationEventRow.
pub record SdkEvaluationEventRow : Type 0 where
  pub trace_id : String
  pub span_id : String
  pub body : String
  pub response_id : String
  pub request_model : String
  pub operation_name : String
  pub service_name : String
  pub span_start_time : String
  pub prompt_version : String

-- computeVariant, of apps/eval-runner/src/spans.ts.
unfoldable pub compute_variant : String → String → String
compute_variant prompt_version request_model =
    if is_empty prompt_version then request_model else prompt_version

-- The row for a body that parsed to an object with a name.
unfoldable pub sdk_row : SdkEvaluationEventRow → Dict String Value → String → EvalResultRow
unfolding compute_variant
sdk_row row body name =
    let score = number_or_zero (Dict.get score_key body) in
    let error_type = text_or_empty (Dict.get error_key body) in
    let errored = not (is_empty error_type) in
    record {
      eval_id = "sdk:" +++ name;
      eval_version = 1;
      trace_id = row.trace_id;
      span_id = row.span_id;
      response_id = row.response_id;
      evaluation_name = name;
      score_value = if errored then zero_score else score;
      score_label = text_or_empty (Dict.get label_key body);
      passed = not errored && at_least 1 2 score;
      explanation = text_or_empty (Dict.get explanation_key body);
      error_type = if errored then error_type else "";
      evaluator_type = "sdk";
      request_model = row.request_model;
      operation_name = row.operation_name;
      service_name = row.service_name;
      prompt_version = row.prompt_version;
      variant = compute_variant row.prompt_version row.request_model;
      content_hash = "";
      span_start_time = row.span_start_time;
      metadata_json = "{\"source\":\"sdk\"}";
    }

-- The checks on the parsed body: none is `undefined`.
unfoldable pub sdk_row_of : SdkEvaluationEventRow → Option Json → Option EvalResultRow
unfolding sdk_row
sdk_row_of row none = none
sdk_row_of row (some array) = none
sdk_row_of row (some scalar) = none
sdk_row_of row (some (object body)) =
    let name = text_or_empty (Dict.get name_key body) in
    if is_empty name then none else some (sdk_row row body name)

-- toSdkResultRow, for a JSON.parse that returns none where it throws.
unfoldable pub to_sdk_result_row :
    (String → Option Json) → SdkEvaluationEventRow → Option EvalResultRow
unfolding sdk_row_of
to_sdk_result_row parse row = sdk_row_of row (parse row.body)

-- promoteSdkEvaluations: the rows that are inserted, and their number, for the events fetched.
unfoldable pub promoted_rows :
    (String → Option Json) → List SdkEvaluationEventRow → List EvalResultRow
unfolding to_sdk_result_row
promoted_rows parse [] = []
promoted_rows parse (row ∷ rows) =
    let rest = promoted_rows parse rows in
    elim (to_sdk_result_row parse row) [ none ↦ rest | some promoted ↦ promoted ∷ rest ]

unfoldable pub promote_sdk_evaluations :
    (String → Option Json)
    → List SdkEvaluationEventRow
    → List EvalResultRow
    → List EvalResultRow × ℕ
unfolding promoted_rows
promote_sdk_evaluations parse events stored =
    let rows = promoted_rows parse events in (stored ++ rows, length rows)

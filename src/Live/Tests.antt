-- ===== src/Live/Tests.antt =====
-- Runs of lib/live.ts on small inputs, and the theorems at inputs that meet their hypotheses.
use trace_bloom.Base.{
  ℕ, ◌+◌, ◌≤◌, ◌⊎◌, All, elem, arith, nat_eq, ◌^◌, ◌≡◌, refl, ◌<◌, String, true, false, not, List,
  [], ◌∷◌, map, none, some, string_eq, is_some,
}
use trace_bloom.Text.{codes}
use trace_bloom.Text.Decimal.{print, read, digit_run}
use trace_bloom.Dict
use trace_bloom.Dict.{values}
use trace_bloom.Traces.{SpanEvalResult, LiveCursor, RawSpanRow}
use trace_bloom.Traces.Detail.{detail_of, kept_rows, trace_span_cap, min_start}
use trace_bloom.Traces.Double.{to_number}
use trace_bloom.Live.{
  LiveSpan, LiveDelta, LiveTraceState, eval_key, apply_delta, merge_spans, merge_evals, max_cursor,
}
use trace_bloom.Live.Cursor.{encode_cursor, decode_cursor, decode-encode, decode_cursor-stable}
use trace_bloom.Live.Merge.{
  rank, apply_all, apply_delta-spans, apply_delta-rank, apply_delta_again, apply_delta_comm,
}
use trace_bloom.Live.View.{derive_trace_view, seed_live_state}
use trace_bloom.Live.Snapshot.{AreNear, seed_of, derive_trace_view-seed, derive_trace_view-anchored}

abbrev row : String → String → ℕ → RawSpanRow
row id parent start = record {
  span_id = id;
  parent_span_id = parent;
  name = "span";
  kind = "INTERNAL";
  status_code = "OK";
  status_message = "";
  service_name = "demo";
  operation_name = "chat";
  provider = "openai";
  request_model = "gpt-4o";
  response_model = "gpt-4o";
  input_tokens = 10;
  output_tokens = 2;
  total_tokens = 12;
  cost_usd = 5;
  start_ns = start;
  duration_ns = 100;
  tool_name = "";
  prompt_version = "v1";
  retry_attempt = 0;
  ingested_ms = 7;
}

abbrev rows : List RawSpanRow
rows = row "b" "a" 1_050 ∷ row "a" "" 1_000 ∷ []

abbrev live_row : RawSpanRow → LiveSpan
live_row r = record {
  span_id = r.span_id;
  parent_span_id = r.parent_span_id;
  name = r.name;
  kind = r.kind;
  status_code = r.status_code;
  status_message = r.status_message;
  service_name = r.service_name;
  operation_name = r.operation_name;
  provider = r.provider;
  request_model = r.request_model;
  response_model = r.response_model;
  input_tokens = r.input_tokens;
  output_tokens = r.output_tokens;
  total_tokens = r.total_tokens;
  cost_usd = r.cost_usd;
  start_ns = r.start_ns;
  duration_ns = r.duration_ns;
  tool_name = r.tool_name;
  prompt_version = r.prompt_version;
  retry_attempt = r.retry_attempt;
  ingested_ms = r.ingested_ms;
}

abbrev result : ℕ → SpanEvalResult
result version = record {
  span_id = "a";
  eval_id = "e1";
  evaluation_name = "no-refusal";
  eval_version = version;
  score_value = 1;
  score_label = "pass";
  passed = true;
  explanation = "";
  error_type = "";
  evaluator_type = "deterministic";
  evaluated_ms = some 9;
}

abbrev start : LiveTraceState
start = record {
  trace_id = "t";
  spans = [];
  evals = [];
  cursor = record { span_ms = 0; eval_ms = 0 };
  root_seen = false;
}

abbrev first_delta : LiveDelta
first_delta = record {
  spans = live_row (row "b" "a" 1_050) ∷ [];
  evals = result 1 ∷ [];
  cursor = record { span_ms = 7; eval_ms = 9 };
  root_seen = false;
}

abbrev second_delta : LiveDelta
second_delta = record {
  spans = live_row (row "a" "" 1_000) ∷ live_row (row "b" "a" 1_050) ∷ [];
  evals = result 2 ∷ [];
  cursor = record { span_ms = 8; eval_ms = 9 };
  root_seen = true;
}

cursor_runs :
    (encode_cursor (record { span_ms = 17; eval_ms = 0 }) ≡ codes "s17e0")
    × (decode_cursor (codes "s17e0") ≡ some (record { span_ms = 17; eval_ms = 0 }))
    × (decode_cursor (codes "s17e") ≡ none)
    × (decode_cursor (codes "s17e0x") ≡ none)
    × (decode_cursor (codes "s1234567890123456e0") ≡ none)
unfolding encode_cursor decode_cursor print read digit_run
cursor_runs = (refl, refl, refl, refl, refl)

-- The separator in a key is the NUL character.
eval_key_run : codes (eval_key (result 1)) ≡ 101 ∷ 49 ∷ 0 ∷ 97 ∷ []
unfolding eval_key
eval_key_run = refl

merge_runs :
    ((apply_all start (first_delta ∷ second_delta ∷ [])).root_seen ≡ true)
    × (Dict.keys (apply_all start (first_delta ∷ second_delta ∷ [])).spans ≡ "b" ∷ "a" ∷ [])
unfolding apply_delta max_cursor merge_spans merge_evals eval_key Dict.get Dict.set Dict.has
merge_runs = (refl, refl)

decode-encode_example :
    decode_cursor (encode_cursor (record { span_ms = 17; eval_ms = 4 }))
    ≡ some (record { span_ms = 17; eval_ms = 4 })
decode-encode_example = decode-encode (record { span_ms = 17; eval_ms = 4 })

decode_cursor-stable_example :
    let c : LiveCursor = record { span_ms = 17; eval_ms = 0 } in
    (c.span_ms < 10 ^ 15) × (c.eval_ms < 10 ^ 15) × (decode_cursor (encode_cursor c) ≡ some c)
decode_cursor-stable_example =
    decode_cursor-stable (codes "s17e0") (record { span_ms = 17; eval_ms = 0 }) cursor_runs.1

apply_delta-spans_example :
    Dict.get "b" (apply_delta start second_delta).spans ≡ some (live_row (row "b" "a" 1_050))
unfolding Dict.get
apply_delta-spans_example = apply_delta-spans start second_delta "b"

apply_delta-rank_example : rank (Dict.get "e1\0a" (apply_delta start second_delta).evals) ≡ 3
unfolding Dict.get eval_key
apply_delta-rank_example = apply_delta-rank start second_delta "e1\0a"

apply_delta_again_example :
    apply_delta (apply_all start (first_delta ∷ second_delta ∷ [])) first_delta
    ≡ apply_all start (first_delta ∷ second_delta ∷ [])
apply_delta_again_example = apply_delta_again start first_delta [] (second_delta ∷ [])

apply_delta_comm_example :
    let l = apply_delta (apply_delta start first_delta) second_delta in
    let r = apply_delta (apply_delta start second_delta) first_delta in
    ((k : String) → is_some (Dict.get k l.spans) ≡ is_some (Dict.get k r.spans))
    × ((k : String) → rank (Dict.get k l.evals) ≡ rank (Dict.get k r.evals))
    × (l.cursor ≡ r.cursor)
    × (l.root_seen ≡ r.root_seen)
apply_delta_comm_example = apply_delta_comm start first_delta second_delta

derive_trace_view-seed_example :
    let d = detail_of "t" rows [] 100 in
    derive_trace_view (seed_live_state (seed_of "t" d false)) ≡ record {
      trace = d.trace;
      spans = d.spans;
      eval_results = d.eval_results;
      anchor_start_ns = d.anchor_start_ns;
      running = not false;
    }
unfolding kept_rows trace_span_cap
derive_trace_view-seed_example = derive_trace_view-seed "t" rows [] 100 false (refl, (refl, tt)) tt

abbrev merged : LiveTraceState
merged = apply_delta (apply_delta start first_delta) second_delta

-- The second span to arrive starts first, and the anchor is its start.
merged-AreNear : AreNear 1_000 (map (λ s. s.start_ns) (values merged.spans))
unfolding apply_delta max_cursor merge_spans Dict.set Dict.has Dict.get
merged-AreNear = (omega arith, (omega arith, tt))

merged_start : min_start (map (λ s. s.start_ns) (values merged.spans)) ≡ 1_000
unfolding apply_delta max_cursor merge_spans Dict.set Dict.has Dict.get min_start
merged_start = refl

derive_trace_view-anchored_example :
    let view = derive_trace_view merged in
    let starts = map (λ s. s.start_ns) (values merged.spans) in
    All (λ v. view.anchor_start_ns ≤ v) starts
    × ((starts ≡ []) ⊎ (elem view.anchor_start_ns starts ≡ true))
    × (map (λ s. view.anchor_start_ns + s.start_offset_ns) view.spans ≡ starts)
derive_trace_view-anchored_example =
    derive_trace_view-anchored merged (rw merged_start merged-AreNear)

-- At 2 ^ 53 the odd numbers are gone.
to_number_runs :
    (to_number 9_007_199_254_740_993 ≡ 9_007_199_254_740_992)
    × (to_number 9_007_199_254_740_995 ≡ 9_007_199_254_740_996)
    × (to_number 36_028_797_018_963_973 ≡ 36_028_797_018_963_976)
unfolding to_number
to_number_runs = (refl, refl, refl)

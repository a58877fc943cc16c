-- ===== src/Evaluators/Tests.antt =====
-- Runs of deterministic.ts and judge.ts on small inputs, and the theorems at inputs that meet their hypotheses.
use trace_bloom.Base.{
  ℕ, zero, suc, ◌<◌, ◌⊎◌, inl, inr, Option, arith, ◌≤◌, ◌≡◌, refl, ◌↔◌, true, false, not, List, [],
  ◌∷◌, none, some, All, length, is_some, if◌then◌else◌, string_eq, ◌==◌,
}
use trace_bloom.Text.{codes}
use trace_bloom.Evaluators.{
  Host, DeterministicRule, max_length, valid_json, contains, not_contains, regex_match,
  regex_no_match, DeterministicConfig, output, all, any, contains_result, evaluate_rule,
  summarize_rules, join_failures, evaluate,
}
use trace_bloom.Evaluators.Judge.{
  JudgeConfig, JudgeVerdict, CallError, timed_out, unparseable, verdict_or_error, normalize, judged,
  exhausted, judge_loop, judge_evaluate, judge_evaluate-first, judge_evaluate-exhausted,
}
use trace_bloom.Evaluators.Scale.{IsUnit, normalize-bounds}
use trace_bloom.Base.Signed.{pos, negsuc, leb_ℤ}
use trace_bloom.Evaluators.Verdict.{holds, evaluate-verdict, evaluate-score, evaluate_rule-opposite}

-- A host on which only `{}` is JSON, a text contains itself only, and a pattern `(` is refused.
abbrev host : Host
host = record {
  parses_json = λ text. text == "{}";
  schema_errors = λ schema text. some none;
  regex_test = λ pattern flags text. if pattern == "(" then none else some (pattern == text);
  schema_exception = λ schema. "bad schema";
  regex_exception = λ pattern flags. "bad pattern";
  to_lower_case = λ text. text;
  includes = λ text part. text == part;
  length_of = λ text. length (codes text);
  show = λ n. "n";
}

abbrev rules : List DeterministicRule
rules = max_length 3 ∷ contains "abc" true ∷ valid_json ∷ []

abbrev strict : DeterministicConfig
strict = record { rules = rules; target = output; mode = all }

evaluator_runs :
    ((evaluate host strict "" "abc").passed ≡ false)
    × ((evaluate host strict "" "abc").score_num ≡ 2)
    × ((evaluate host strict "" "abc").reason ≡ "valid_json: not valid JSON")
    × ((evaluate host (record strict { mode = any }) "" "abc").passed ≡ true)
unfolding evaluate evaluate_rule summarize_rules join_failures contains_result
evaluator_runs = (refl, refl, refl, refl)

evaluate-verdict_example :
    ((evaluate host strict "" "abc").passed ≡ true ↔ All (λ r. holds host "abc" r ≡ true) rules)
    × ((evaluate host (record strict { mode = any }) "" "abc").passed ≡ false
        ↔ (1 ≤ length rules) × All (λ r. holds host "abc" r ≡ false) rules)
evaluate-verdict_example = evaluate-verdict host rules output "" "abc"

evaluate-score_example :
    let outcome = evaluate host strict "" "abc" in
    (outcome.score_num ≤ outcome.score_den)
    × (1 ≤ outcome.score_den)
    × ((outcome.score_num ≡ outcome.score_den) ↔ All (λ r. holds host "abc" r ≡ true) rules)
evaluate-score_example = evaluate-score host strict "" "abc"

evaluate_rule-opposite_example :
    (holds host "abc" (regex_no_match "abc" "") ≡ (
      if is_some (host.regex_test "abc" "" "abc")
      then not (holds host "abc" (regex_match "abc" ""))
      else false))
    × (holds host "abc" (regex_match "abc" "") ≡ (
        if is_some (host.regex_test "abc" "" "abc")
        then not (holds host "abc" (regex_no_match "abc" ""))
        else false))
    × (holds host "abc" (not_contains "b" true) ≡ not (holds host "abc" (contains "b" true)))
evaluate_rule-opposite_example = evaluate_rule-opposite host "abc" "" "b" "abc" true

abbrev scale : JudgeConfig
scale = record {
  scale_min = pos 1;
  scale_max = pos 5;
  threshold_num = pos 1;
  threshold_den = 2;
  max_retries = 2;
}

abbrev verdict : JudgeVerdict
verdict = record { score = pos 4; pass = none; reason = none }

-- The first attempt times out, the second answers.
abbrev calls : ℕ → Option JudgeVerdict ⊎ CallError
calls zero = inr timed_out
calls (suc n) = inl (some verdict)

abbrev no_answers : ℕ → Option JudgeVerdict ⊎ CallError
no_answers n = inl none

first_fails : (i : ℕ) → i < 1 → (e : CallError) × (verdict_or_error (calls i) ≡ inr e)
first_fails zero h = (timed_out, refl)
first_fails (suc i) h = absurd (omega arith)

judge_runs :
    ((judge_evaluate scale calls).attempts ≡ 2)
    × ((judge_evaluate scale calls).score_num ≡ pos 3)
    × ((judge_evaluate scale calls).passed ≡ true)
    × ((judge_evaluate scale no_answers).error_type ≡ some "parse_error")
unfolding judge_evaluate judge_loop judged exhausted normalize
judge_runs = (refl, refl, refl, refl)

judge_evaluate-first_example : judge_evaluate scale calls ≡ judged scale 1 verdict
judge_evaluate-first_example =
    judge_evaluate-first scale calls 1 verdict (omega arith) first_fails refl

judge_evaluate-exhausted_example :
    ((judge_evaluate scale no_answers).error_type ≡ some "parse_error")
    × ((judge_evaluate scale no_answers).score_num ≡ pos 0)
    × ((judge_evaluate scale no_answers).passed ≡ false)
judge_evaluate-exhausted_example =
    judge_evaluate-exhausted scale no_answers unparseable (λ i h. (unparseable, refl)) refl

-- Below the scale, and on one from 2 down to -2.
normalize_runs :
    (normalize (negsuc 6) scale ≡ (pos 0, 4))
    × (normalize (pos 1) (record scale { scale_min = pos 2; scale_max = negsuc 1 }) ≡ (pos 4, 4))
unfolding normalize
normalize_runs = (refl, refl)

normalize-bounds_example :
    IsUnit (normalize (pos 7) scale)
    × (leb_ℤ (pos 7) (pos 1) ≡ true
        → leb_ℤ (pos 1) (pos 5) ≡ true
        → (normalize (pos 7) scale).0 ≡ pos 0)
    × (leb_ℤ (pos 5) (pos 7) ≡ true
        → leb_ℤ (pos 5) (pos 1) ≡ false
        → (normalize (pos 7) scale).0 ≡ pos (normalize (pos 7) scale).1)
normalize-bounds_example = normalize-bounds (pos 7) scale

-- ===== src/Evaluators.antt =====
-- packages/eval/src/deterministic.ts: the rule-based evaluator. What it takes from JavaScript and
-- from the ajv package is the record Host: a call that throws returns none.
pub mod Verdict
pub mod Judge
pub mod Scale
pub mod Tests
use trace_bloom.Base.{
  ℕ, ◌+◌, String, Bool, true, false, ◌&&◌, not, Option, none, some, List, [], ◌∷◌, map, leb, ltb,
  nat_beq, if◌then◌else◌, length, keep, or_else,
}
use trace_bloom.Text.{◌+++◌}

-- The fields ending in `exception` are what the `catch` makes of a thrown error: its message.
-- JSON.parse, a compiled schema with ajv.errorsText, RegExp.test, strings and numerals.
pub record Host : Type 0 where
  pub parses_json : String → Bool
  pub schema_errors : String → String → Option (Option String)
  pub regex_test : String → String → String → Option Bool
  pub schema_exception : String → String
  pub regex_exception : String → String → String
  pub to_lower_case : String → String
  pub includes : String → String → Bool
  pub length_of : String → ℕ
  pub show : ℕ → String

-- DeterministicRule, with the schema by its text; what is optional has its default.
pub data DeterministicRule : Type 0 where
  valid_json : DeterministicRule
  json_schema : String → DeterministicRule
  regex_match regex_no_match : String → String → DeterministicRule
  contains not_contains : String → Bool → DeterministicRule
  max_length : ℕ → DeterministicRule

pub data Target : Type 0 where
  input output : Target

pub data Mode : Type 0 where
  all any : Mode

pub record DeterministicConfig : Type 0 where
  pub rules : List DeterministicRule
  pub target : Target
  pub mode : Mode

pub record RuleResult : Type 0 where
  pub kind : String
  pub passed : Bool
  pub detail : Option String

-- `detail: ok ? undefined : text`.
abbrev pub result : String → Bool → String → RuleResult
result kind ok text = record { kind = kind; passed = ok; detail = if ok then none else some text }

-- `matched === wantMatch`, and for a pattern that is refused the result of the `catch`.
unfoldable pub regex_result : String → String → String → Bool → Option Bool → RuleResult
regex_result message kind pattern want none = result kind false message
regex_result message kind pattern want (some matched) =
    result kind (if want then matched else not matched)
      ("/" +++ pattern +++ "/ " +++ (if want then "did not match" else "matched"))

unfoldable pub schema_result : String → Option (Option String) → RuleResult
schema_result message none = result "json_schema" false message
schema_result message (some none) = result "json_schema" true ""
schema_result message (some (some errors)) = result "json_schema" false errors

unfoldable pub contains_result : Host → String → Bool → String → Bool → String → RuleResult
contains_result h kind want text case_sensitive target =
    let haystack = if case_sensitive then target else h.to_lower_case target in
    let needle = if case_sensitive then text else h.to_lower_case text in
    let found = h.includes haystack needle in
    result kind (if want then found else not found)
      ((if want then "missing" else "unexpected") +++ " \"" +++ text +++ "\"")

-- evaluateRule.
unfoldable pub evaluate_rule : Host → DeterministicRule → String → RuleResult
unfolding regex_result schema_result contains_result
evaluate_rule h valid_json target = result "valid_json" (h.parses_json target) "not valid JSON"
evaluate_rule h (json_schema schema) target =
    if h.parses_json target
    then schema_result (h.schema_exception schema) (h.schema_errors schema target)
    else result "json_schema" false "not valid JSON"
evaluate_rule h (regex_match pattern flags) target =
    regex_result (h.regex_exception pattern flags) "regex_match" pattern true
      (h.regex_test pattern flags target)
evaluate_rule h (regex_no_match pattern flags) target =
    regex_result (h.regex_exception pattern flags) "regex_no_match" pattern false
      (h.regex_test pattern flags target)
evaluate_rule h (contains text case_sensitive) target =
    contains_result h "contains" true text case_sensitive target
evaluate_rule h (not_contains text case_sensitive) target =
    contains_result h "not_contains" false text case_sensitive target
evaluate_rule h (max_length bound) target =
    result "max_length" (leb (h.length_of target) bound)
      ("length " +++ h.show (h.length_of target) +++ " > " +++ h.show bound)

-- EvalOutcome, without the metadata, which repeats the results: the score is the fraction
-- score_num / score_den.
pub record EvalOutcome : Type 0 where
  pub score_num : ℕ
  pub score_den : ℕ
  pub passed : Bool
  pub label : String
  pub reason : String

-- `failures.map(...).join('; ')`.
unfoldable pub join_failures : List RuleResult → String
join_failures [] = ""
join_failures (r ∷ []) = r.kind +++ ": " +++ or_else r.detail "failed"
join_failures (r ∷ q ∷ rs) =
    r.kind +++ ": " +++ or_else r.detail "failed" +++ "; " +++ join_failures (q ∷ rs)

abbrev is_passed : RuleResult → Bool
is_passed r = r.passed

abbrev pub is_failed : RuleResult → Bool
is_failed r = not r.passed

abbrev pub passes : Mode → ℕ → ℕ → Bool
passes all passed_count total = nat_beq passed_count total
passes any passed_count total = ltb 0 passed_count

-- The body of evaluate, for the results of its rules.
unfoldable pub summarize_rules : Host → Mode → List RuleResult → EvalOutcome
unfolding join_failures
summarize_rules h mode results =
    let passed_count = length (keep is_passed results) in
    let total = length results in
    let passed = if nat_beq total 0 then true else passes mode passed_count total in
    let failures = keep is_failed results in
    record {
      score_num = if nat_beq total 0 then 1 else passed_count;
      score_den = if nat_beq total 0 then 1 else total;
      passed = passed;
      label = if passed then "pass" else "fail";
      reason =
          if nat_beq (length failures) 0
          then "all " +++ h.show total +++ " rule(s) passed"
          else join_failures failures;
    }

abbrev pub target_text : Target → String → String → String
target_text input given_input given_output = given_input
target_text output given_input given_output = given_output

-- DeterministicEvaluator.evaluate.
unfoldable pub evaluate : Host → DeterministicConfig → String → String → EvalOutcome
unfolding evaluate_rule summarize_rules
evaluate h config given_input given_output =
    let target = target_text config.target given_input given_output in
    summarize_rules h config.mode (map (λ rule. evaluate_rule h rule target) config.rules)

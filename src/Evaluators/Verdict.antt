-- ===== src/Evaluators/Verdict.antt =====
-- The verdict of the evaluator against its rules, and its score.
use trace_bloom.Base.{
  ℕ, ◌≤◌, ◌≡◌, refl, ◌↔◌, inl, inr, String, Bool, true, false, not, Option, none, some, List, [],
  ◌∷◌, map, arith, nat_beq, if◌then◌else◌, length, keep, All, Bool-cases, is_some,
}
use trace_bloom.Evaluators.{
  Host, DeterministicRule, regex_match, regex_no_match, contains, not_contains, DeterministicConfig,
  Mode, all, any, Target, RuleResult, is_passed, regex_result, contains_result, evaluate_rule,
  summarize_rules, target_text, evaluate,
}

module _ (h : Host) (target : String) where
  abbrev pub holds : DeterministicRule → Bool
  holds rule = (evaluate_rule h rule target).passed

  abbrev results : List DeterministicRule → List RuleResult
  results rules = map (λ rule. evaluate_rule h rule target) rules

  abbrev passed_count : List DeterministicRule → ℕ
  passed_count rules = length (keep is_passed (results rules))

  count-All :
      (rules : List DeterministicRule)
      → (passed_count rules ≤ length (results rules))
        × ((passed_count rules ≡ length (results rules)) ↔ All (λ r. holds r ≡ true) rules)
  count-All [] = (omega arith, ground arith)
  count-All (r ∷ rules) =
      let (small, full) = count-All rules in
      elim (Bool-cases (holds r)) [
        | inl e ↦ rw e (
          omega arith,
          (λ q. (refl, full.0 (omega arith)), λ q. let c = full.1 q.1 in omega arith),
        )
        | inr e ↦ rw e (omega arith, (λ q. absurd (omega arith), λ q. absurd (ground arith)))
      ]

  count_none :
      (rules : List DeterministicRule) → (passed_count rules ≡ 0) ↔ All (λ r. holds r ≡ false) rules
  count_none [] = ground arith
  count_none (r ∷ rules) =
      let none_left = count_none rules in
      elim (Bool-cases (holds r)) [
        | inl e ↦ rw e (λ q. absurd (omega arith), λ q. absurd (ground arith))
        | inr e ↦ rw e (λ q. (refl, none_left.0 q), λ q. none_left.1 q.1)
      ]

length-results :
    (h : Host) (target : String) (rules : List DeterministicRule)
    → length (results h target rules) ≡ length rules
length-results h target [] = refl
length-results h target (r ∷ rules) = omega (arith, length-results h target rules)

-- A configuration in mode `all` passes exactly if every rule passes, an empty list of rules
-- included; in mode `any` it fails exactly if there are rules and none of them passes.
pub evaluate-verdict :
    (h : Host) (rules : List DeterministicRule) (target : Target)
    (given_input given_output : String)
    → let holds_on = holds h (target_text target given_input given_output) in
      ((evaluate h
            (record { rules = rules; target = target; mode = all })
            given_input
            given_output).passed
          ≡ true
        ↔ All (λ r. holds_on r ≡ true) rules)
      × ((evaluate h
              (record { rules = rules; target = target; mode = any })
              given_input
              given_output).passed
            ≡ false
          ↔ (1 ≤ length rules) × All (λ r. holds_on r ≡ false) rules)
unfolding evaluate summarize_rules
evaluate-verdict h [] target given_input given_output = (ground arith, ground arith)
evaluate-verdict h (r ∷ rules) target given_input given_output =
    let text = target_text target given_input given_output in
    let (small, full) = count-All h text (r ∷ rules) in
    let empty = count_none h text (r ∷ rules) in
    (
      (λ e. full.0 (ground arith), λ a. let same = full.1 a in ground arith),
      (λ e. (omega arith, empty.0 (ground arith)), λ a. let same = empty.1 a.1 in ground arith),
    )

-- The score lies between 0 and 1, and is 1 exactly if every rule passes, in either mode.
pub evaluate-score :
    (h : Host) (config : DeterministicConfig) (given_input given_output : String)
    → let outcome = evaluate h config given_input given_output in
      let holds_on = holds h (target_text config.target given_input given_output) in
      (outcome.score_num ≤ outcome.score_den)
      × (1 ≤ outcome.score_den)
      × ((outcome.score_num ≡ outcome.score_den) ↔ All (λ r. holds_on r ≡ true) config.rules)
unfolding evaluate summarize_rules
evaluate-score h config given_input given_output =
    scored h config.mode (target_text config.target given_input given_output) config.rules
  where
    scored :
        (h : Host) (mode : Mode) (text : String) (rules : List DeterministicRule)
        → let outcome = summarize_rules h mode (results h text rules) in
          (outcome.score_num ≤ outcome.score_den)
          × (1 ≤ outcome.score_den)
          × ((outcome.score_num ≡ outcome.score_den) ↔ All (λ r. holds h text r ≡ true) rules)
    scored h mode text [] = (omega arith, omega arith, ground arith)
    scored h mode text (r ∷ rules) =
        let (small, full) = count-All h text (r ∷ rules) in
        let some_rules : nat_beq (length (results h text (r ∷ rules))) 0 ≡ false = ground arith in
        rw some_rules (small, omega arith, full)

regex_result-opposite :
    (message pattern : String) (o : Option Bool)
    → ((regex_result message "regex_no_match" pattern false o).passed ≡ (
        if is_some o
        then not (regex_result message "regex_match" pattern true o).passed
        else false))
      × ((regex_result message "regex_match" pattern true o).passed ≡ (
          if is_some o
          then not (regex_result message "regex_no_match" pattern false o).passed
          else false))
unfolding regex_result
regex_result-opposite message pattern none = (refl, refl)
regex_result-opposite message pattern (some true) = (refl, refl)
regex_result-opposite message pattern (some false) = (refl, refl)

-- The two rules on a pattern are opposite where the pattern compiles, and where it does not, both
-- fail; the two rules on a contained text are always opposite.
pub evaluate_rule-opposite :
    (h : Host) (pattern flags text target : String) (case_sensitive : Bool)
    → (holds h target (regex_no_match pattern flags) ≡ (
        if is_some (h.regex_test pattern flags target)
        then not (holds h target (regex_match pattern flags))
        else false))
      × (holds h target (regex_match pattern flags) ≡ (
          if is_some (h.regex_test pattern flags target)
          then not (holds h target (regex_no_match pattern flags))
          else false))
      × (holds h target (not_contains text case_sensitive)
          ≡ not (holds h target (contains text case_sensitive)))
unfolding evaluate_rule regex_result contains_result
evaluate_rule-opposite h pattern flags text target case_sensitive =
    let (no_match, match) =
      regex_result-opposite (h.regex_exception pattern flags) pattern
        (h.regex_test pattern flags target) in
    (no_match, match, refl)

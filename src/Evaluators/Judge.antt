-- ===== src/Evaluators/Judge.antt =====
-- packages/eval/src/judge.ts: the retry loop of the judge and its score. What an attempt brings is an
-- argument: the verdict that parseJudgeResponse finds in the completion, none if it finds none, or
-- an error. Scores and the ends of a scale are integers in one small unit, and a
-- threshold is a fraction.
use trace_bloom.Base.{
  ℕ, zero, suc, ◌+◌, ◌≤◌, ◌<◌, ◌≡◌, refl, ◌⊎◌, inl, inr, String, Bool, false, Option, none, some,
  arith, ◌&&◌, ◌==◌, string_eq, if◌then◌else◌, or_else, ap, sym, ◌∙◌,
}
use trace_bloom.Base.Signed.{ℤ, pos, leb_ℤ, sub_ℤ, times_nat, max_ℤ, min_ℤ, quotient}
use trace_bloom.Text.{is_empty}

-- JudgeVerdict.
pub record JudgeVerdict : Type 0 where
  pub score : ℤ
  pub pass : Option Bool
  pub reason : Option String

-- `lastError`: a TimeoutError, an error by its name and message, or another value.
pub data CallError : Type 0 where
  timed_out unparseable other : CallError
  named : String → String → CallError

pub record JudgeConfig : Type 0 where
  pub scale_min : ℤ
  pub scale_max : ℤ
  pub threshold_num : ℤ
  pub threshold_den : ℕ
  pub max_retries : ℕ

pub record JudgeOutcome : Type 0 where
  pub score_num : ℤ
  pub score_den : ℕ
  pub passed : Bool
  pub reason : Option String
  pub error_type : Option String
  pub attempts : ℕ

-- The part of normalize behind its guard.
abbrev pub scaled : ℤ → ℤ → ℤ → ℤ × ℕ
scaled raw_score low high = quotient (sub_ℤ (min_ℤ (max_ℤ raw_score low) high) low) (sub_ℤ high low)

-- normalize: the numerator and the denominator.
unfoldable pub normalize : ℤ → JudgeConfig → ℤ × ℕ
normalize raw_score c =
    if leb_ℤ c.scale_max c.scale_min && leb_ℤ c.scale_min c.scale_max
    then (pos 0, 1)
    else scaled raw_score c.scale_min c.scale_max

-- The return from inside the loop.
unfoldable pub judged : JudgeConfig → ℕ → JudgeVerdict → JudgeOutcome
unfolding normalize
judged c attempt verdict =
    let (num, den) = normalize verdict.score c in
    record {
      score_num = num;
      score_den = den;
      passed =
          or_else verdict.pass
            (leb_ℤ (times_nat c.threshold_num den) (times_nat num c.threshold_den));
      reason = verdict.reason;
      error_type = none;
      attempts = attempt + 1;
    }

abbrev pub error_type_of : CallError → String
error_type_of timed_out = "timeout"
error_type_of unparseable = "parse_error"
error_type_of (named name message) =
    if message == "unparseable judge response"
    then "parse_error"
    else if is_empty name
    then "_OTHER"
    else name
error_type_of other = "_OTHER"

abbrev pub reason_of : CallError → String
reason_of timed_out = "judge call timed out"
reason_of unparseable = "unparseable judge response"
reason_of (named name message) = message
reason_of other = "judge failed"

-- What stands behind the loop.
unfoldable pub exhausted : JudgeConfig → CallError → JudgeOutcome
unfolding is_empty
exhausted c last_error = record {
  score_num = pos 0;
  score_den = 1;
  passed = false;
  reason = some (reason_of last_error);
  error_type = some (error_type_of last_error);
  attempts = c.max_retries + 1;
}

-- What one pass of the loop has: a verdict, or the error it leaves in `lastError`.
abbrev pub verdict_or_error : Option JudgeVerdict ⊎ CallError → JudgeVerdict ⊎ CallError
verdict_or_error (inl none) = inr unparseable
verdict_or_error (inl (some verdict)) = inl verdict
verdict_or_error (inr error) = inr error

-- The loop, with the passes that are left.
unfoldable pub judge_loop :
    JudgeConfig → (ℕ → Option JudgeVerdict ⊎ CallError) → ℕ → ℕ → CallError → JudgeOutcome
unfolding judged exhausted
judge_loop c call zero attempt last_error = exhausted c last_error
judge_loop c call (suc left) attempt last_error = elim (verdict_or_error (call attempt)) [
  | inl verdict ↦ judged c attempt verdict
  | inr error ↦ judge_loop c call left (attempt + 1) error
]

-- JudgeEvaluator.evaluate.
unfoldable pub judge_evaluate : JudgeConfig → (ℕ → Option JudgeVerdict ⊎ CallError) → JudgeOutcome
unfolding judge_loop
judge_evaluate c call = judge_loop c call (suc c.max_retries) 0 other

zero_right : (n : ℕ) → n + 0 ≡ n
zero_right n = omega arith

suc_right : (n k : ℕ) → n + 1 + k ≡ n + suc k
suc_right n k = omega arith

module _ (c : JudgeConfig) (call : ℕ → Option JudgeVerdict ⊎ CallError) where
  abbrev pub at_attempt : ℕ → JudgeVerdict ⊎ CallError
  at_attempt i = verdict_or_error (call i)

  loop_verdict :
      (left skip attempt : ℕ) (last : CallError) (v : JudgeVerdict)
      → skip < left
      → ((i : ℕ) → i < skip → (e : CallError) × (at_attempt (attempt + i) ≡ inr e))
      → at_attempt (attempt + skip) ≡ inl v
      → judge_loop c call left attempt last ≡ judged c (attempt + skip) v
  unfolding judge_loop
  loop_verdict zero skip attempt last v l f e = absurd (omega arith)
  loop_verdict (suc left) zero attempt last v l f e =
      let same = zero_right attempt in
      let here : at_attempt attempt ≡ inl v = ap at_attempt (sym same) ∙ e in
      rw (here, judge_loop) (ap (λ n. judged c n v) (sym same))
  loop_verdict (suc left) (suc skip) attempt last v l f e =
      let (error, h) = f 0 (omega arith) in
      let here : at_attempt attempt ≡ inr error = ap at_attempt (sym (zero_right attempt)) ∙ h in
      let step =
        loop_verdict left skip (attempt + 1) error v (omega arith)
          (λ i k.
            let (d, g) = f (suc i) (omega arith) in (d, ap at_attempt (suc_right attempt i) ∙ g))
          (ap at_attempt (suc_right attempt skip) ∙ e) in
      rw (here, judge_loop) (step ∙ ap (λ n. judged c n v) (suc_right attempt skip))

  loop_exhausted :
      (left attempt : ℕ) (last error : CallError)
      → ((i : ℕ) → i < suc left → (e : CallError) × (at_attempt (attempt + i) ≡ inr e))
      → at_attempt (attempt + left) ≡ inr error
      → judge_loop c call (suc left) attempt last ≡ exhausted c error
  unfolding judge_loop
  loop_exhausted zero attempt last error f e =
      let here : at_attempt attempt ≡ inr error = ap at_attempt (sym (zero_right attempt)) ∙ e in
      rw (here, judge_loop) refl
  loop_exhausted (suc left) attempt last error f e =
      let (first, h) = f 0 (omega arith) in
      let here : at_attempt attempt ≡ inr first = ap at_attempt (sym (zero_right attempt)) ∙ h in
      let step =
        loop_exhausted left (attempt + 1) first error
          (λ i k.
            let (d, g) = f (suc i) (omega arith) in (d, ap at_attempt (suc_right attempt i) ∙ g))
          (ap at_attempt (suc_right attempt left) ∙ e) in
      rw (here, judge_loop) step

  -- The outcome is that of the first attempt with a verdict, if there is one among the first
  -- maxRetries + 1, and it says how many attempts were made.
  pub judge_evaluate-first :
      (k : ℕ) (v : JudgeVerdict)
      → k ≤ c.max_retries
      → ((i : ℕ) → i < k → (e : CallError) × (at_attempt i ≡ inr e))
      → at_attempt k ≡ inl v
      → judge_evaluate c call ≡ judged c k v
  unfolding judge_evaluate
  judge_evaluate-first k v l f e =
      loop_verdict (suc c.max_retries) k 0 other v (omega arith)
        (λ i h. let (d, g) = f i h in (d, ap at_attempt (zero_left i) ∙ g))
        (ap at_attempt (zero_left k) ∙ e)
      ∙ ap (λ n. judged c n v) (zero_left k)
    where
      zero_left : (n : ℕ) → 0 + n ≡ n
      zero_left n = omega arith

  -- If each of the maxRetries + 1 attempts fails or brings no verdict, the outcome is an error that
  -- names the last attempt's error, with score 0 and not passed.
  pub judge_evaluate-exhausted :
      (error : CallError)
      → ((i : ℕ) → i ≤ c.max_retries → (e : CallError) × (at_attempt i ≡ inr e))
      → at_attempt c.max_retries ≡ inr error
      → (judge_evaluate c call).error_type ≡ some (error_type_of error)
        × ((judge_evaluate c call).score_num ≡ pos 0)
        × ((judge_evaluate c call).passed ≡ false)
  unfolding judge_evaluate exhausted
  judge_evaluate-exhausted error f e =
      rw
        (loop_exhausted c.max_retries 0 other error
          (λ i h. let (d, g) = f i (omega arith) in (d, ap at_attempt (zero_left i) ∙ g))
          (ap at_attempt (zero_left c.max_retries) ∙ e))
        (refl, refl, refl)
    where
      zero_left : (n : ℕ) → 0 + n ≡ n
      zero_left n = omega arith

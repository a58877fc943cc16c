-- ===== src/Runner/Sample.antt =====
-- Sampling.
use trace_bloom.Base.{ℕ, ◌+◌, ◌*◌, ◌≤◌, ◌<◌, ◌≡◌, String, true, false, string_eq, arith}
use native.Mathlib.Decide.{dec_lt}
use native.Mathlib.Nat.{mul-le-mul_right}
use trace_bloom.Json.{Number}
use trace_bloom.Runner.{Host}
use trace_bloom.Runner.Spans.{sample_decision}

below_larger :
    (x m n d n' d' : ℕ) → 0 < d → 0 < d' → n * d' ≤ n' * d → x * d < n * m → x * d' < n' * m
below_larger x m n d n' d' pos pos' le lt =
    let scaled : (x * d + 1) * d' ≤ n * m * d' = mul-le-mul_right d' (omega arith) in
    let across : n * d' * m ≤ n' * d * m = mul-le-mul_right m le in
    elim (dec_lt (x * d') (n' * m)) [
      | yes h ↦ h
      | no h ↦
          let back : n' * m * d ≤ x * d' * d = mul-le-mul_right d (omega arith) in
          absurd (grind arith)
    ]

one_larger : (n d n' d' : ℕ) → 0 < d → n * d' ≤ n' * d → d ≤ n → d' ≤ n'
one_larger n d n' d' pos le one = grind arith

-- A larger sampling rate keeps every span that a smaller one keeps: the rates are fractions that are
-- not negative.
pub sample_decision_mono :
    (h : Host) (span_id : String) (small large : Number)
    → small.negative ≡ false
    → large.negative ≡ false
    → 0 < small.den
    → 0 < large.den
    → small.num * large.den ≤ large.num * small.den
    → sample_decision h span_id small ≡ true
    → sample_decision h span_id large ≡ true
unfolding sample_decision
sample_decision_mono h span_id small large s l p q le kept =
    let over =
      below_larger (h.sample_prefix span_id) 0xffffffff small.num small.den large.num large.den p q
        le in
    let one = one_larger small.num small.den large.num large.den p le in ground arith

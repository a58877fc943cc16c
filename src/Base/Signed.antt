-- ===== src/Base/Signed.antt =====
-- Integers over the native natural numbers: pos n is n, and negsuc n is - (n + 1).
use trace_bloom.Base.{ℕ, zero, suc, ◌+◌, ◌-◌, ◌*◌, Bool, true, false, leb, ltb, if◌then◌else◌}

pub data ℤ : Type 0 where
  pos negsuc : ℕ → ℤ

abbrev pub leb_ℤ : ℤ → ℤ → Bool
leb_ℤ (pos m) (pos n) = leb m n
leb_ℤ (pos m) (negsuc n) = false
leb_ℤ (negsuc m) (pos n) = true
leb_ℤ (negsuc m) (negsuc n) = leb n m

-- The difference of two natural numbers.
abbrev pub sub_ℕ : ℕ → ℕ → ℤ
sub_ℕ m n = if ltb m n then negsuc (n - m - 1) else pos (m - n)

abbrev pub sub_ℤ : ℤ → ℤ → ℤ
sub_ℤ (pos m) (pos n) = sub_ℕ m n
sub_ℤ (pos m) (negsuc n) = pos (m + n + 1)
sub_ℤ (negsuc m) (pos n) = negsuc (m + n)
sub_ℤ (negsuc m) (negsuc n) = sub_ℕ n m

abbrev pub opposite : ℤ → ℤ
opposite (pos zero) = pos zero
opposite (pos (suc n)) = negsuc n
opposite (negsuc n) = pos (suc n)

-- An integer a natural number of times.
abbrev pub times_nat : ℤ → ℕ → ℤ
times_nat (pos m) n = pos (m * n)
times_nat (negsuc m) n = opposite (pos ((m + 1) * n))

-- `Math.max` and `Math.min`.
abbrev pub max_ℤ : ℤ → ℤ → ℤ
max_ℤ a b = if leb_ℤ a b then b else a

abbrev pub min_ℤ : ℤ → ℤ → ℤ
min_ℤ a b = if leb_ℤ a b then a else b

-- The quotient as a fraction whose denominator is not negative.
abbrev pub quotient : ℤ → ℤ → ℤ × ℕ
quotient a (pos n) = (a, n)
quotient a (negsuc n) = (opposite a, suc n)

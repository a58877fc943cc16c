-- ===== src/Text/Decimal.antt =====
-- `String(n)` and `Number(text)` for a number n, and the digit class `\d` of a regular expression.
use trace_bloom.Base.{
  ℕ, zero, suc, ◌+◌, ◌-◌, ◌*◌, ◌/◌, ◌%◌, ◌^◌, ◌≤◌, ◌<◌, ◌≡◌, refl, Bool, false, ◌&&◌, List, [], ◌∷◌,
  ◌++◌, arith, ltb, leb, if◌then◌else◌, length, All,
}
use native.Mathlib.Nat.{pow-suc, mul-le-mul_right, le_trans}

abbrev pub is_digit : ℕ → Bool
is_digit c = leb b'0' c && leb c b'9'

abbrev pub IsDigit : ℕ → Type 0
IsDigit c = (b'0' ≤ c) × (c ≤ b'9')

-- The digits of n, most significant first, in front of `rest`. The fuel is n itself, and one more.
print_from : ℕ → ℕ → List ℕ → List ℕ
print_from zero n rest = rest
print_from (suc f) n rest =
    let more = print_from f (n / 10) ((b'0' + n % 10) ∷ rest) in
    if ltb n 10 then (b'0' + n) ∷ rest else more

unfoldable pub print : ℕ → List ℕ
unfolding print_from
print n = print_from (suc n) n []

abbrev push_digit : ℕ → ℕ → ℕ
push_digit n c = n * 10 + (c - b'0')

read_from : ℕ → List ℕ → ℕ
read_from n [] = n
read_from n (c ∷ cs) = read_from (push_digit n c) cs

-- `Number(text)` where the text is a run of digits.
unfoldable pub read : List ℕ → ℕ
unfolding read_from
read cs = read_from 0 cs

-- The longest run of digits, and what follows it: a greedy `(\d+)`.
unfoldable pub digit_run : List ℕ → List ℕ × List ℕ
digit_run [] = ([], [])
digit_run (c ∷ cs) =
    let (run, rest) = digit_run cs in if is_digit c then (c ∷ run, rest) else ([], c ∷ cs)

print_from-All : (f n : ℕ) (rest : List ℕ) → All IsDigit rest → All IsDigit (print_from f n rest)
unfolding print_from
print_from-All zero n rest h = h
print_from-All (suc f) n rest h = ground (arith, print_from-All f (n / 10) ((b'0' + n % 10) ∷ rest))

read_from-print_from :
    (f n : ℕ) (rest : List ℕ) → n < f → read_from 0 (print_from f n rest) ≡ read_from n rest
unfolding print_from read_from
read_from-print_from zero n rest h = elim h [ ]
read_from-print_from (suc f) n rest h =
    ground (arith, read_from-print_from f (n / 10) ((b'0' + n % 10) ∷ rest))

length-print_from-le :
    (f n k : ℕ) (rest : List ℕ)
    → n < 10 ^ suc k
    → length (print_from f n rest) ≤ suc k + length rest
unfolding print_from
length-print_from-le zero n k rest h = omega arith
length-print_from-le (suc f) n zero rest h = ground arith
length-print_from-le (suc f) n (suc k) rest h =
    ground (arith, pow-suc 10 (suc k), length-print_from-le f (n / 10) k ((b'0' + n % 10) ∷ rest))

length-print_from-rest : (f n : ℕ) (rest : List ℕ) → length rest ≤ length (print_from f n rest)
unfolding print_from
length-print_from-rest zero n rest = omega arith
length-print_from-rest (suc f) n rest =
    ground (arith, length-print_from-rest f (n / 10) ((b'0' + n % 10) ∷ rest))

pow-ten-pos : (k : ℕ) → 1 ≤ 10 ^ k
pow-ten-pos zero = omega arith
pow-ten-pos (suc k) = omega (arith, pow-suc 10 k, pow-ten-pos k)

length-print_from-lt :
    (f n k : ℕ) (rest : List ℕ)
    → n < f
    → 10 ^ k ≤ n
    → k + length rest < length (print_from f n rest)
unfolding print_from
length-print_from-lt zero n k rest h p = elim h [ ]
length-print_from-lt (suc f) n zero rest h p =
    ground (arith, length-print_from-rest f (n / 10) ((b'0' + n % 10) ∷ rest))
length-print_from-lt (suc f) n (suc k) rest h p =
    let big : 10 ≤ n = omega (arith, pow-suc 10 k, pow-ten-pos k) in
    let down : 10 ^ k ≤ n / 10 = omega (arith, pow-suc 10 k) in
    ground (arith, length-print_from-lt f (n / 10) k ((b'0' + n % 10) ∷ rest))

pub print-All : (n : ℕ) → All IsDigit (print n)
unfolding print
print-All n = print_from-All (suc n) n [] tt

pub read-print : (n : ℕ) → read (print n) ≡ n
unfolding read print read_from
read-print n = read_from-print_from (suc n) n [] (omega arith)

-- A number below 10 ^ k has at most k digits, and one that is not has more.
pub length-print-le : (n k : ℕ) → n < 10 ^ suc k → length (print n) ≤ suc k
unfolding print
length-print-le n k h = omega (arith, length-print_from-le (suc n) n k [] h)

pub length-print-lt : (n k : ℕ) → 10 ^ k ≤ n → k < length (print n)
unfolding print
length-print-lt n k h = omega (arith, length-print_from-lt (suc n) n k [] (omega arith) h)

pub length-print-pos : (n : ℕ) → 1 ≤ length (print n)
unfolding print print_from
length-print-pos n = ground (arith, length-print_from-rest n (n / 10) ((b'0' + n % 10) ∷ []))

-- What begins with no digit.
abbrev pub Stops : List ℕ → Type 0
Stops [] = Unit
Stops (c ∷ cs) = is_digit c ≡ false

pub digit_run-append :
    (run rest : List ℕ) → All IsDigit run → Stops rest → digit_run (run ++ rest) ≡ (run, rest)
unfolding digit_run
digit_run-append [] [] h s = refl
digit_run-append [] (c ∷ cs) h s = ground arith
digit_run-append (c ∷ run) rest h s = ground (arith, digit_run-append run rest h.1 s)

pub digit_run-All_end : (run : List ℕ) → All IsDigit run → digit_run run ≡ (run, [])
unfolding digit_run
digit_run-All_end [] h = refl
digit_run-All_end (c ∷ run) h = ground (arith, digit_run-All_end run h.1)

pub digit_run-All : (cs : List ℕ) → All IsDigit (digit_run cs).0
unfolding digit_run
digit_run-All [] = tt
digit_run-All (c ∷ cs) = ground (arith, digit_run-All cs)

mul-le-ten : (a n p q : ℕ) → a ≤ (n + 1) * 10 → q ≡ p * 10 → a * p ≤ (n + 1) * q
mul-le-ten a n p q h e = rw e (omega (arith, mul-le-mul_right p h))

read_from-lt :
    (n k : ℕ) (cs : List ℕ) → All IsDigit cs → length cs ≤ k → read_from n cs < (n + 1) * 10 ^ k
unfolding read_from
read_from-lt n k [] h l = grind (arith, pow-ten-pos k)
read_from-lt n zero (c ∷ cs) h l = absurd (omega arith)
read_from-lt n (suc k) (c ∷ cs) h l =
    let step : read_from (push_digit n c) cs < (push_digit n c + 1) * 10 ^ k =
      read_from-lt (push_digit n c) k cs h.1 (omega arith) in
    let room : push_digit n c + 1 ≤ (n + 1) * 10 = omega arith in
    le_trans step (mul-le-ten (push_digit n c + 1) n (10 ^ k) (10 ^ suc k) room (pow-suc 10 k))

pub read-lt : (k : ℕ) (cs : List ℕ) → All IsDigit cs → length cs ≤ k → read cs < 10 ^ k
unfolding read
read-lt k cs h l = omega (arith, read_from-lt 0 k cs h l)

-- ===== src/Json.antt =====
-- What the code sees of JSON: the result of JSON.parse by its shape, and the numbers in it. Numbers
-- of JavaScript that JSON can hold are fractions, with a sign and a positive denominator.
use trace_bloom.Base.{ℕ, ◌*◌, String, Bool, false, ◌&&◌, not, Option, none, some, leb}
use trace_bloom.Dict.{Dict}
use trace_bloom.Text.{is_empty}

pub record Number : Type 0 where
  pub negative : Bool
  pub num : ℕ
  pub den : ℕ

abbrev pub zero_score : Number
zero_score = record { negative = false; num = 0; den = 1 }

-- `x >= a / b`.
abbrev pub at_least : ℕ → ℕ → Number → Bool
at_least a b x = not x.negative && leb (a * x.den) (b * x.num)

-- A value that is neither a string nor a number is kept by its text.
pub data Value : Type 0 where
  text : String → Value
  number : Number → Value
  other : String → Value

-- `typeof parsed === 'object'` holds of the first two; null counts as a scalar.
pub data Json : Type 0 where
  object : Dict String Value → Json
  array : Json
  scalar : Json

-- `typeof v === 'string' ? v : ''`, of a value that may be missing.
abbrev pub text_or_empty : Option Value → String
text_or_empty none = ""
text_or_empty (some (text s)) = s
text_or_empty (some (number n)) = ""
text_or_empty (some (other s)) = ""

abbrev pub number_or_zero : Option Value → Number
number_or_zero none = zero_score
number_or_zero (some (number n)) = n
number_or_zero (some (text s)) = zero_score
number_or_zero (some (other s)) = zero_score

-- An optional string in a condition: neither missing nor empty.
abbrev pub truthy : Option String → Bool
truthy none = false
truthy (some s) = not (is_empty s)

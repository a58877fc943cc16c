-- ===== src/Text.antt =====
-- What the program uses of JavaScript's strings beside `===`: order, and decimal numerals.
-- A text that is walked is the list of its code points.
pub mod Decimal
pub mod Sort
use Prim.Native.Char.{code}
use Prim.Native.String
use trace_bloom.Base.{
  ℕ, String, List, [], ◌∷◌, Bool, true, false, ◌||◌, ◌&&◌, ltb, nat_beq, if◌then◌else◌,
}

-- The code points of a text. JavaScript compares UTF-16 units: for ids, which are ASCII, the same.
abbrev pub codes : String → List ℕ
codes String.[] = []
codes (String.◌∷◌ c s) = code c ∷ codes s

unfoldable pub codes_lt : List ℕ → List ℕ → Bool
codes_lt [] [] = false
codes_lt [] (d ∷ ds) = true
codes_lt (c ∷ cs) [] = false
codes_lt (c ∷ cs) (d ∷ ds) = ltb c d || nat_beq c d && codes_lt cs ds

-- `a < b` on strings.
unfoldable pub str_lt : String → String → Bool
unfolding codes_lt
str_lt a b = codes_lt (codes a) (codes b)

-- `a === ''`, as the truth test `if (s)` reads it the other way round.
unfoldable pub is_empty : String → Bool
is_empty String.[] = true
is_empty (String.◌∷◌ c s) = false

infixr 60 ◌+++◌
abbrev pub ◌+++◌ : String → String → String
a +++ b = String.◌++◌ a b

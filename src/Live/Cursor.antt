-- ===== src/Live/Cursor.antt =====
-- encodeCursor and decodeCursor: the resume position as it travels in the SSE event id.
use trace_bloom.Base.{
  ℕ, ◌^◌, ◌≤◌, ◌<◌, ◌≡◌, refl, ◌⊎◌, inl, inr, Bool, true, false, ◌&&◌, List, [], ◌∷◌, ◌++◌, Option,
  none, some, arith, ltb, leb, nat_beq, if◌then◌else◌, length, All,
}
use trace_bloom.Text.Decimal
use trace_bloom.Text.Decimal.{print, read, digit_run, is_digit, IsDigit}
use trace_bloom.Traces.{LiveCursor}

-- encodeCursor, as code points.
unfoldable pub encode_cursor : LiveCursor → List ℕ
encode_cursor cursor = b's' ∷ (print cursor.span_ms ++ (b'e' ∷ print cursor.eval_ms))

-- A capture `(\d{1,15})`.
abbrev fits : List ℕ → Bool
fits run = leb 1 (length run) && leb (length run) 15

abbrev is_end : List ℕ → Bool
is_end [] = true
is_end (c ∷ cs) = false

-- What CURSOR_RE wants behind the first capture: `e(\d{1,15})$`.
unfoldable pub decode_tail : List ℕ → List ℕ → Option LiveCursor
decode_tail span_run [] = none
decode_tail span_run (c ∷ cs) =
    let (eval_run, rest) = digit_run cs in
    if nat_beq c b'e' && (fits span_run && (fits eval_run && is_end rest))
    then some (record { span_ms = read span_run; eval_ms = read eval_run })
    else none

-- decodeCursor.
unfoldable pub decode_cursor : List ℕ → Option LiveCursor
unfolding decode_tail
decode_cursor [] = none
decode_cursor (c ∷ cs) =
    let (run, rest) = digit_run cs in if nat_beq c b's' then decode_tail run rest else none

abbrev limit : ℕ
limit = 10 ^ 15

fits-print : (n : ℕ) → fits (print n) ≡ ltb n limit
fits-print n = elim (le_total_lt n) [
  | inl small ↦ ground (arith, Decimal.length-print-le n 14 small, Decimal.length-print-pos n)
  | inr big ↦ ground (arith, Decimal.length-print-lt n 15 big)
]
  where
    le_total_lt : (n : ℕ) → (n < limit) ⊎ (limit ≤ n)
    le_total_lt n = omega arith

-- Decoding what was encoded gives the cursor back, exactly when both of its times have at most
-- fifteen digits; a cursor with a longer time does not survive the trip.
pub decode-encode :
    (c : LiveCursor)
    → decode_cursor (encode_cursor c)
      ≡ (if ltb c.span_ms limit && ltb c.eval_ms limit then some c else none)
unfolding encode_cursor decode_cursor
decode-encode c = ground (
  arith,
  Decimal.digit_run-append (print c.span_ms) (b'e' ∷ print c.eval_ms) (Decimal.print-All c.span_ms)
      refl,
  Decimal.digit_run-All_end (print c.eval_ms) (Decimal.print-All c.eval_ms),
  fits-print c.span_ms,
  fits-print c.eval_ms,
  Decimal.read-print c.span_ms,
  Decimal.read-print c.eval_ms,
)

tail_small :
    (run rest : List ℕ) (c : LiveCursor)
    → All IsDigit run
    → decode_tail run rest ≡ some c
    → (c.span_ms < limit) × (c.eval_ms < limit)
unfolding decode_tail
tail_small run [] c d h = absurd (cc)
tail_small run (x ∷ xs) c d h = ground (
  arith,
  Decimal.read-lt 15 run d,
  Decimal.read-lt 15 (digit_run xs).0 (Decimal.digit_run-All xs),
)

decoded_small :
    (text : List ℕ) (c : LiveCursor)
    → decode_cursor text ≡ some c
    → (c.span_ms < limit) × (c.eval_ms < limit)
unfolding decode_cursor
decoded_small [] c h = absurd (cc)
decoded_small (x ∷ xs) c h =
    tail_small (digit_run xs).0 (digit_run xs).1 c (Decimal.digit_run-All xs) (ground arith)

-- A cursor that was decoded from any text has both times below 10 ^ 15, and encoding it again
-- gives a text that decodes to it.
pub decode_cursor-stable :
    (text : List ℕ) (c : LiveCursor)
    → decode_cursor text ≡ some c
    → (c.span_ms < limit) × (c.eval_ms < limit) × (decode_cursor (encode_cursor c) ≡ some c)
decode_cursor-stable text c h =
    let (span, eval) = decoded_small text c h in (span, eval, ground (arith, decode-encode c))

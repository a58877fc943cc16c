-- ===== src/Runner/Hashed.antt =====
-- The content hash tells contents apart.
use trace_bloom.Base.{ℕ, ◌≡◌, ◌∙◌, ap, sym, ◌≢◌, String, List, [], ◌∷◌, ◌++◌, arith, All}
use trace_bloom.Text.{codes}
use trace_bloom.Text.Decimal.{print, read, IsDigit, print-All, read-print}
use trace_bloom.Results.Events.{content_hash, hashed_text}

abbrev Differs : ℕ → Type 0
Differs c = c ≢ 0

split_at_zero :
    (xs ys us vs : List ℕ)
    → All Differs xs
    → All Differs us
    → (xs ++ (0 ∷ ys)) ≡ (us ++ (0 ∷ vs))
    → (xs ≡ us) × (ys ≡ vs)
split_at_zero [] ys [] vs h k e = ground arith
split_at_zero [] ys (u ∷ us) vs h k e = absurd (ground arith)
split_at_zero (x ∷ xs) ys [] vs h k e = absurd (ground arith)
split_at_zero (x ∷ xs) ys (u ∷ us) vs h k e = ground (arith, split_at_zero xs ys us vs h.1 k.1)

digits-Differs : (cs : List ℕ) → All IsDigit cs → All Differs cs
digits-Differs [] h = tt
digits-Differs (c ∷ cs) h = ((λ e. absurd (omega arith)), digits-Differs cs h.1)

-- Where SHA-256 does not collide, contents with equal hashes are equal: the version, the input and
-- the output, for inputs without the separating NUL character.
pub content_hash-injective :
    (sha256 : List ℕ → String) (v w : ℕ) (i o j p : String)
    → ((x y : List ℕ) → sha256 x ≡ sha256 y → x ≡ y)
    → All Differs (codes i)
    → All Differs (codes j)
    → content_hash sha256 v i o ≡ content_hash sha256 w j p
    → (v ≡ w) × (codes i ≡ codes j) × (codes o ≡ codes p)
unfolding content_hash hashed_text
content_hash-injective sha256 v w i o j p collision_free no_nul no_nul' same =
    let (digits, texts) =
      split_at_zero (print v) (codes i ++ (0 ∷ codes o)) (print w) (codes j ++ (0 ∷ codes p))
        (digits-Differs (print v) (print-All v)) (digits-Differs (print w) (print-All w))
        (collision_free (hashed_text v i o) (hashed_text w j p) same) in
    let (inputs, outputs) =
      split_at_zero (codes i) (codes o) (codes j) (codes p) no_nul no_nul' texts in
    (sym (read-print v) ∙ ap read digits ∙ read-print w, inputs, outputs)

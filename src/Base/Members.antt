-- ===== src/Base/Members.antt =====
-- Members of a filtered list.
use mathlib.Core.Path.{◌≡◌}
use mathlib.Core.Logic.{◌↔◌, inl, inr}
use mathlib.Core.Bool.{Bool, true}
use mathlib.Core.List.{List, [], ◌∷◌, Memᴰ}
use mathlib.Core.List.Memᴰ
use trace_bloom.Base.Tests.{Bool-cases}
use trace_bloom.Base.Lists.{keep}

module _ {ℓ} {A : Type ℓ} (p : A → Bool) where
  member_keep : (x : A) (xs : List A) → Memᴰ x (keep p xs) → Memᴰ x xs × (p x ≡ true)
  member_keep x [] m = absurd (Memᴰ.not-nil m)
  member_keep x (y ∷ xs) m = elim (Bool-cases (p y)) [
    | inl h ↦ elim (Memᴰ.cases_cons (rw h at m)) [
      | inl same ↦ (Memᴰ.head same, rw same h)
      | inr rest ↦ let (a, b) = member_keep x xs rest in (Memᴰ.tail a, b)
    ]
    | inr h ↦ let (a, b) = member_keep x xs (rw h at m) in (Memᴰ.tail a, b)
  ]

  keep_member : (x : A) (xs : List A) → Memᴰ x xs → p x ≡ true → Memᴰ x (keep p xs)
  keep_member x [] m h = absurd (Memᴰ.not-nil m)
  keep_member x (y ∷ xs) m h = elim (Memᴰ.cases_cons m) [
    | inl same ↦ let e : p y ≡ true = rw (← same) h in rw e (Memᴰ.head same)
    | inr rest ↦ elim (Bool-cases (p y)) [
      | inl k ↦ rw k (Memᴰ.tail (keep_member x xs rest h))
      | inr k ↦ rw k (keep_member x xs rest h)
    ]
  ]

  pub keep_iff : (x : A) (xs : List A) → Memᴰ x (keep p xs) ↔ Memᴰ x xs × (p x ≡ true)
  keep_iff x xs = (member_keep x xs, λ m. keep_member x xs m.0 m.1)

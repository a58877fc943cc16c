-- ===== src/Base/Keys.antt =====
-- An interface for values that JavaScript compares by `===`, and membership in a list of them.
use Prim.Native.Nat.{ℕ, ◌+◌, ◌≤◌}
use Prim.Native.String.{String}
use mathlib.Core.Path.{◌≡◌, refl}
use mathlib.Core.Logic.{◌↔◌, ◌⊎◌, ◌≢◌}
use mathlib.Core.Bool.{Bool, true, false, ◌||◌, ◌&&◌}
use mathlib.Core.List.{List, [], ◌∷◌, ◌++◌}
use native.Mathlib.Omega.{arith}
use text.Mathlib.Text.{◌==◌ as str_eq}
use text.Mathlib.TextEquality.{eq_iff}
use trace_bloom.Base.Tests.{nat_beq, nat_beq_iff, if◌then◌else◌}

-- Values with a test that tells the equal ones.
pub record Eq {ℓ} (Key : Type ℓ) : Type ℓ where
  pub beq : (x y : Key) → Bool
  pub beq_iff : (x y : Key) → (beq x y ≡ true) ↔ (x ≡ y)

instance abbrev pub string_eq : Eq String
string_eq = record { beq = λ x y. str_eq x y; beq_iff = λ x y. eq_iff x y }

infix 50 ◌==◌
abbrev pub ◌==◌ {ℓ} : {Key : Type ℓ} ⦃keyed : Eq Key⦄ (x y : Key) → Bool
◌==◌ ⦃keyed⦄ x y = keyed.beq x y

instance abbrev pub nat_eq : Eq ℕ
nat_eq = record { beq = λ m n. nat_beq m n; beq_iff = λ m n. nat_beq_iff m n }

abbrev list_beq {ℓ} : {Key : Type ℓ} ⦃keyed : Eq Key⦄ → List Key → List Key → Bool
list_beq [] [] = true
list_beq [] (y ∷ ys) = false
list_beq (x ∷ xs) [] = false
list_beq (x ∷ xs) (y ∷ ys) = x == y && list_beq xs ys

pub list_beq_iff {ℓ} :
    {Key : Type ℓ} ⦃keyed : Eq Key⦄ (xs ys : List Key) → (list_beq xs ys ≡ true) ↔ (xs ≡ ys)
list_beq_iff [] [] = ground arith
list_beq_iff [] (y ∷ ys) = ground arith
list_beq_iff (x ∷ xs) [] = ground arith
list_beq_iff ⦃keyed⦄ (x ∷ xs) (y ∷ ys) = ground (arith, keyed.beq_iff x y, list_beq_iff xs ys)

instance abbrev pub list_eq {ℓ} : {Key : Type ℓ} ⦃keyed : Eq Key⦄ → Eq (List Key)
list_eq = record { beq = list_beq; beq_iff = list_beq_iff }

module _ {ℓ} {A : Type ℓ} ⦃e : Eq A⦄ where
  -- `Set.prototype.has` and `Array.prototype.includes`.
  abbrev pub elem : A → List A → Bool
  elem a [] = false
  elem a (x ∷ xs) = x == a || elem a xs

  unfoldable pub count : A → List A → ℕ
  count a [] = 0
  count a (x ∷ xs) = (if x == a then 1 else 0) + count a xs

  pub beq_cases : (a b : A) → ((a == b) ≡ true) × (a ≡ b) ⊎ ((a == b) ≡ false) × (a ≢ b)
  beq_cases a b = ground (arith, e.beq_iff a b)

  pub beq_self : (a : A) → (a == a) ≡ true
  beq_self a = (e.beq_iff a a).1 refl

  pub elem-append : (a : A) (xs ys : List A) → elem a (xs ++ ys) ≡ (elem a xs || elem a ys)
  elem-append a [] ys = refl
  elem-append a (x ∷ xs) ys = ground (arith, elem-append a xs ys)

  pub count-nil : (a : A) → count a [] ≡ 0
  unfolding count
  count-nil a = refl

  pub count-cons :
      (a x : A) (xs : List A) → count a (x ∷ xs) ≡ (if x == a then 1 else 0) + count a xs
  unfolding count
  count-cons a x xs = refl

  pub count-append : (a : A) (xs ys : List A) → count a (xs ++ ys) ≡ count a xs + count a ys
  unfolding count
  count-append a [] ys = omega arith
  count-append a (x ∷ xs) ys = omega (arith, count-append a xs ys)

  pub count-eq-zero : (a : A) (xs : List A) → elem a xs ≡ false → count a xs ≡ 0
  unfolding count
  count-eq-zero a [] h = refl
  count-eq-zero a (x ∷ xs) h = ground (arith, count-eq-zero a xs)

  pub count-pos : (a : A) (xs : List A) → elem a xs ≡ true → 1 ≤ count a xs
  unfolding count
  count-pos a [] h = absurd (cc)
  count-pos a (x ∷ xs) h = ground (arith, count-pos a xs)

  -- No element twice.
  abbrev pub Distinct : List A → Type ℓ
  Distinct [] = Unit
  Distinct (x ∷ xs) = (elem x xs ≡ false) × Distinct xs

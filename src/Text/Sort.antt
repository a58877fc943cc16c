-- ===== src/Text/Sort.antt =====
-- `Array.prototype.sort` with a comparator, which is stable: insertion from the right.
use trace_bloom.Base.{
  ◌≡◌, refl, Bool, List, [], ◌∷◌, arith, if◌then◌else◌, elem, count, Eq, count-cons,
}

module _ {ℓ} {A : Type ℓ} (before : A → A → Bool) where
  -- In front of the first element that must not stand before `a`.
  unfoldable pub insert : A → List A → List A
  insert a [] = a ∷ []
  insert a (x ∷ xs) = if before x a then x ∷ insert a xs else a ∷ x ∷ xs

  unfoldable pub sort : List A → List A
  unfolding insert
  sort [] = []
  sort (x ∷ xs) = insert x (sort xs)

  module _ ⦃e : Eq A⦄ where
    count-insert : (b a : A) (xs : List A) → count b (insert a xs) ≡ count b (a ∷ xs)
    unfolding insert count
    count-insert b a [] = refl
    count-insert b a (x ∷ xs) = ground (arith, count-insert b a xs)

    pub count-sort : (b : A) (xs : List A) → count b (sort xs) ≡ count b xs
    unfolding sort count
    count-sort b [] = refl
    count-sort b (x ∷ xs) =
        ground (arith, count-insert b x (sort xs), count-sort b xs, count-cons b x (sort xs))

    elem-insert : (b a : A) (xs : List A) → elem b (insert a xs) ≡ elem b (a ∷ xs)
    unfolding insert
    elem-insert b a [] = refl
    elem-insert b a (x ∷ xs) = ground (arith, elem-insert b a xs)

    pub elem-sort : (b : A) (xs : List A) → elem b (sort xs) ≡ elem b xs
    unfolding sort
    elem-sort b [] = refl
    elem-sort b (x ∷ xs) = ground (arith, elem-insert b x (sort xs), elem-sort b xs)

-- ===== src/Dict.antt =====
-- `Map` of JavaScript: an association list in insertion order. `set` on a key that is there keeps
-- its place; `delete` and `set` again move it to the end.
use trace_bloom.Base.{
  ◌++◌, suc, ◌≡◌, refl, ◌≢◌, Bool, false, ◌||◌, Option, none, some, List, [], ◌∷◌, map, arith, Eq,
  ◌==◌, if◌then◌else◌, length, elem, is_some, Bool-cases, inl, inr,
}

abbrev pub Dict {ℓ κ} : Type ℓ → Type κ → Type (ℓ ⊔ κ)
Dict K V = List (K × V)

abbrev pub map_some {ℓ κ} : {A : Type ℓ} {B : Type κ} → (A → B) → Option A → Option B
map_some f none = none
map_some f (some a) = some (f a)

module _ {ℓ κ} {K : Type ℓ} {V : Type κ} where
  abbrev pub keys : Dict K V → List K
  keys = map (λ e. e.0)

  abbrev pub values : Dict K V → List V
  values = map (λ e. e.1)

module _ {ℓ κ} {K : Type ℓ} {V : Type κ} ⦃e : Eq K⦄ where
  unfoldable pub get : K → Dict K V → Option V
  get k [] = none
  get k ((j, v) ∷ m) = if j == k then some v else get k m

  unfoldable pub set : K → V → Dict K V → Dict K V
  set k v [] = (k, v) ∷ []
  set k v ((j, w) ∷ m) = if j == k then (j, v) ∷ m else (j, w) ∷ set k v m

  unfoldable pub delete : K → Dict K V → Dict K V
  delete k [] = []
  delete k ((j, w) ∷ m) = if j == k then m else (j, w) ∷ delete k m

  unfoldable pub has : K → Dict K V → Bool
  unfolding get
  has k m = is_some (get k m)

  -- A change of the object that a key refers to.
  unfoldable pub modify : K → (V → V) → Dict K V → Dict K V
  modify k f [] = []
  modify k f ((j, w) ∷ m) = if j == k then (j, f w) ∷ m else (j, w) ∷ modify k f m

  -- No key twice.
  abbrev pub IsMap : Dict K V → Type ℓ
  IsMap [] = Unit
  IsMap ((k, v) ∷ m) = (elem k (keys m) ≡ false) × IsMap m

  pub get-set :
      (k j : K) (v : V) (m : Dict K V) → get j (set k v m) ≡ (if k == j then some v else get j m)
  unfolding get set
  get-set k j v [] = refl
  get-set k j v ((i, w) ∷ m) =
      ground (arith, e.beq_iff k j, e.beq_iff i k, e.beq_iff i j, get-set k j v m)

  pub get-set_self : (k : K) (v : V) (m : Dict K V) → get k (set k v m) ≡ some v
  get-set_self k v m = ground (arith, get-set k k v m, e.beq_iff k k)

  pub get-set_ne : (k j : K) (v : V) (m : Dict K V) → k ≢ j → get j (set k v m) ≡ get j m
  get-set_ne k j v m h = ground (arith, get-set k j v m, e.beq_iff k j)

  pub elem-keys : (k : K) (m : Dict K V) → elem k (keys m) ≡ is_some (get k m)
  unfolding get
  elem-keys k [] = refl
  elem-keys k ((j, v) ∷ m) = ground (arith, elem-keys k m)

  pub elem-keys-set :
      (k j : K) (v : V) (m : Dict K V) → elem j (keys (set k v m)) ≡ (k == j || elem j (keys m))
  elem-keys-set k j v m = ground (arith, elem-keys j (set k v m), elem-keys j m, get-set k j v m)

  pub set-IsMap : (k : K) (v : V) (m : Dict K V) → IsMap m → IsMap (set k v m)
  unfolding set
  set-IsMap k v [] h = (refl, tt)
  set-IsMap k v ((j, w) ∷ m) h =
      ground (arith, set-IsMap k v m h.1, elem-keys-set k j v m, e.beq_iff k j, e.beq_iff j k)

  pub length-set :
      (k : K) (v : V) (m : Dict K V)
      → length (set k v m) ≡ (if elem k (keys m) then length m else suc (length m))
  unfolding set
  length-set k v [] = refl
  length-set k v ((j, w) ∷ m) = ground (arith, length-set k v m)

  pub set-append :
      (k : K) (v : V) (m : Dict K V) → elem k (keys m) ≡ false → set k v m ≡ m ++ (k, v) ∷ []
  unfolding set
  set-append k v [] h = refl
  set-append k v ((j, w) ∷ m) h = ground (arith, set-append k v m)

  pub elem-keys-append :
      (j : K) (m n : Dict K V) → elem j (keys (m ++ n)) ≡ (elem j (keys m) || elem j (keys n))
  elem-keys-append j [] n = refl
  elem-keys-append j ((i, w) ∷ m) n = ground (arith, elem-keys-append j m n)

  pub keys-modify : (k : K) (f : V → V) (m : Dict K V) → keys (modify k f m) ≡ keys m
  unfolding modify
  keys-modify k f [] = refl
  keys-modify k f ((j, w) ∷ m) = ground (arith, keys-modify k f m)

  pub get-modify :
      (k j : K) (f : V → V) (m : Dict K V)
      → get j (modify k f m) ≡ (if k == j then map_some f (get j m) else get j m)
  unfolding get modify
  get-modify k j f [] = ground arith
  get-modify k j f ((i, w) ∷ m) =
      ground (arith, e.beq_iff k j, e.beq_iff i k, e.beq_iff i j, get-modify k j f m)

  pub elem-keys-delete :
      (k j : K) (m : Dict K V) → elem j (keys m) ≡ false → elem j (keys (delete k m)) ≡ false
  unfolding delete
  elem-keys-delete k j [] h = refl
  elem-keys-delete k j ((i, b) ∷ m) h = ground (arith, elem-keys-delete k j m)

  pub delete-gone : (k : K) (m : Dict K V) → IsMap m → elem k (keys (delete k m)) ≡ false
  unfolding delete
  delete-gone k [] d = refl
  delete-gone k ((i, b) ∷ m) d = ground (arith, delete-gone k m d.1, d.0, e.beq_iff i k)

  pub delete-IsMap : (k : K) (m : Dict K V) → IsMap m → IsMap (delete k m)
  unfolding delete
  delete-IsMap k [] d = tt
  delete-IsMap k ((i, b) ∷ m) d = elim (Bool-cases (i == k)) [
    | inl h ↦ rw h d.1
    | inr h ↦ rw h (elem-keys-delete k i m d.0, delete-IsMap k m d.1)
  ]

  pub get-delete_ne : (k j : K) (m : Dict K V) → k ≢ j → get j (delete k m) ≡ get j m
  unfolding get delete
  get-delete_ne k j [] h = refl
  get-delete_ne k j ((i, b) ∷ m) h =
      ground (arith, get-delete_ne k j m h, e.beq_iff i k, e.beq_iff i j)

  pub get-delete_self : (k : K) (m : Dict K V) → IsMap m → get k (delete k m) ≡ none
  get-delete_self k m d = ground (arith, delete-gone k m d, elem-keys k (delete k m))

  pub get-append_single :
      (j k : K) (v : V) (m : Dict K V)
      → get k m ≡ none
      → get j (m ++ (k, v) ∷ []) ≡ (if k == j then some v else get j m)
  unfolding get
  get-append_single j k v [] h = refl
  get-append_single j k v ((i, w) ∷ m) h =
      ground (arith, get-append_single j k v m, e.beq_iff i j, e.beq_iff i k, e.beq_iff k j)

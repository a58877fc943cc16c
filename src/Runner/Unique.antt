-- ===== src/Runner/Unique.antt =====
-- Which hashes are scored, and how often.
use trace_bloom.Base.{
  ◌≡◌, refl, ◌∙◌, String, Bool, false, ◌||◌, ◌&&◌, not, List, [], ◌∷◌, ◌++◌, map, arith, keep, elem,
  elem-append, string_eq, Distinct, Bool-cases, inl, inr,
}
use trace_bloom.Dict.{Dict}
use trace_bloom.Dict
use trace_bloom.Results.{CachedResult}
use trace_bloom.Runner.{Candidate}
use trace_bloom.Runner.Scoring.{unique_from, unique_hashes, hash_of, is_missing, to_score}

elem-unique_from :
    (y : String) (seen xs : List String) → elem y (unique_from seen xs) ≡ (elem y seen || elem y xs)
unfolding unique_from
elem-unique_from y seen [] = ground arith
elem-unique_from y seen (x ∷ xs) = elim (Bool-cases (elem x seen)) [
  | inl e ↦ rw e (ground (arith, elem-unique_from y seen xs, string_eq.beq_iff x y))
  | inr e ↦
      rw e (ground (arith, elem-unique_from y (seen ++ x ∷ []) xs, elem-append y seen (x ∷ [])))
]

Distinct-append_single :
    (x : String) (xs : List String) → Distinct xs → elem x xs ≡ false → Distinct (xs ++ x ∷ [])
Distinct-append_single x [] d h = (refl, tt)
Distinct-append_single x (y ∷ xs) d h = ground (
  arith,
  Distinct-append_single x xs,
  elem-append y xs (x ∷ []),
  string_eq.beq_iff x y,
  string_eq.beq_iff y x,
)

unique_from-Distinct : (seen xs : List String) → Distinct seen → Distinct (unique_from seen xs)
unfolding unique_from
unique_from-Distinct seen [] d = d
unique_from-Distinct seen (x ∷ xs) d = elim (Bool-cases (elem x seen)) [
  | inl e ↦ rw e (unique_from-Distinct seen xs d)
  | inr e ↦ rw e (unique_from-Distinct (seen ++ x ∷ []) xs (Distinct-append_single x seen d e))
]

elem-keep :
    (p : String → Bool) (y : String) (xs : List String) → elem y (keep p xs) ≡ (p y && elem y xs)
elem-keep p y [] = ground arith
elem-keep p y (x ∷ xs) = ground (arith, elem-keep p y xs, string_eq.beq_iff x y)

keep-Distinct : (p : String → Bool) (xs : List String) → Distinct xs → Distinct (keep p xs)
keep-Distinct p [] d = tt
keep-Distinct p (x ∷ xs) d = ground (arith, keep-Distinct p xs, elem-keep p x xs)

pub elem-to_score :
    (y : String) (cache : Dict String CachedResult) (cs : List Candidate)
    → elem y (to_score cache cs) ≡ (not (Dict.has y cache) && elem y (map hash_of cs))
unfolding to_score unique_hashes
elem-to_score y cache cs =
    elem-keep (is_missing cache) y (unique_hashes cs)
    ∙ ground (arith, elem-unique_from y [] (map hash_of cs))

-- Every content that is not in the cache is scored exactly once: no hash stands twice in the list of
-- those to score, and a hash stands in it exactly if a candidate has it and the cache does not.
pub to_score-Distinct :
    (cache : Dict String CachedResult) (cs : List Candidate)
    → Distinct (to_score cache cs)
      × ((hash : String)
          → elem hash (to_score cache cs)
            ≡ (not (Dict.has hash cache) && elem hash (map hash_of cs)))
unfolding to_score unique_hashes
to_score-Distinct cache cs = (
  keep-Distinct (is_missing cache) (unique_hashes cs) (unique_from-Distinct [] (map hash_of cs) tt),
  λ y. elem-to_score y cache cs,
)

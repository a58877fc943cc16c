-- ===== src/RateLimit/Bounds.antt =====
-- What the limiter keeps bounded.
use trace_bloom.Base.{
  ℕ, suc, ◌≤◌, ◌≡◌, inl, inr, String, true, false, [], ◌∷◌, arith, leb, length, elem, string_eq,
  All, Bool-cases, Option-cases,
}
use trace_bloom.Dict
use trace_bloom.Dict.{Dict, keys, IsMap}
use trace_bloom.RateLimit.{
  RateLimitOptions, Bucket, units, refresh, take_bucket, drop_oldest, try_acquire,
}

abbrev pub IsFilled : RateLimitOptions → Dict String Bucket → Type 0
IsFilled o buckets = All (λ e. e.1.tokens ≤ units o o.capacity) buckets

-- No key twice, no more keys than allowed, and no bucket fuller than its capacity.
pub record IsLimiter (o : RateLimitOptions) (buckets : Dict String Bucket) : Type 0 where
  pub distinct : IsMap buckets
  pub small : length buckets ≤ o.max_keys
  pub filled : IsFilled o buckets

length-delete :
    (k : String) (m : Dict String Bucket)
    → elem k (keys m) ≡ true
    → suc (length (Dict.delete k m)) ≡ length m
unfolding Dict.delete
length-delete k [] h = absurd (cc)
length-delete k ((i, b) ∷ m) h = ground (arith, length-delete k m)

delete-IsFilled :
    (o : RateLimitOptions) (k : String) (m : Dict String Bucket)
    → IsFilled o m
    → IsFilled o (Dict.delete k m)
unfolding Dict.delete
delete-IsFilled o k [] f = tt
delete-IsFilled o k ((i, b) ∷ m) f = elim (Bool-cases (string_eq.beq i k)) [
  | inl h ↦ rw h f.1
  | inr h ↦ rw h (f.0, delete-IsFilled o k m f.1)
]

set-IsFilled :
    (o : RateLimitOptions) (k : String) (b : Bucket) (m : Dict String Bucket)
    → b.tokens ≤ units o o.capacity
    → IsFilled o m
    → IsFilled o (Dict.set k b m)
unfolding Dict.set
set-IsFilled o k b [] h f = (h, tt)
set-IsFilled o k b ((i, c) ∷ m) h f = elim (Bool-cases (string_eq.beq i k)) [
  | inl e ↦ rw e (h, f.1)
  | inr e ↦ rw e (f.0, set-IsFilled o k b m h f.1)
]

-- What `take_bucket` leaves has room for the key, and the bucket is not overfull.
record HasRoom (o : RateLimitOptions) (key : String) (taken : Bucket × Dict String Bucket)
    : Type 0 where
  distinct : IsMap taken.1
  filled : IsFilled o taken.1
  fits : taken.0.tokens ≤ units o o.capacity
  fresh : elem key (keys taken.1) ≡ false
  room : suc (length taken.1) ≤ o.max_keys

drop_oldest-HasRoom :
    (o : RateLimitOptions) (now : ℕ) (key : String) (m : Dict String Bucket)
    → 1 ≤ o.max_keys
    → IsLimiter o m
    → elem key (keys m) ≡ false
    → o.max_keys ≤ length m
    → HasRoom o key (record { tokens = units o o.capacity; updated_ms = now }, drop_oldest m)
drop_oldest-HasRoom o now key [] p l h g = absurd (omega arith)
drop_oldest-HasRoom o now key (e ∷ m) p l h g = record {
  distinct = l.distinct.1;
  filled = l.filled.1;
  fits = omega arith;
  fresh = ground arith;
  room = l.small;
}

take_bucket-HasRoom :
    (o : RateLimitOptions) (now : ℕ) (key : String) (m : Dict String Bucket)
    → 1 ≤ o.max_keys
    → IsLimiter o m
    → HasRoom o key (take_bucket o now key m)
unfolding take_bucket refresh
take_bucket-HasRoom o now key m p l = elim (Option-cases (Dict.get key m)) [
  | inr (b, e) ↦
      let size = length-delete key m (ground (arith, Dict.elem-keys key m)) in
      rw (e, take_bucket)
        (record {
          distinct = Dict.delete-IsMap key m l.distinct;
          filled = delete-IsFilled o key m l.filled;
          fits = omega arith;
          fresh = Dict.delete-gone key m l.distinct;
          room = omega (arith, l.small);
        })
  | inl e ↦
      let absent : elem key (keys m) ≡ false = ground (arith, Dict.elem-keys key m) in
      elim (Bool-cases (leb o.max_keys (length m))) [
        | inl full ↦
            rw (e, take_bucket, full) (drop_oldest-HasRoom o now key m p l absent (ground arith))
        | inr free ↦
            rw (e, take_bucket, free)
              (record {
                distinct = l.distinct;
                filled = l.filled;
                fits = omega arith;
                fresh = absent;
                room = ground arith;
              })
      ]
]

-- A request of any client, at any time and whatever its outcome, leaves the limiter well-formed:
-- no key twice, never more than maxKeys keys, no bucket above its capacity. It needs maxKeys to be
-- at least one.
pub try_acquire-IsLimiter :
    (o : RateLimitOptions) (now : ℕ) (key : String) (tokens : ℕ) (m : Dict String Bucket)
    → 1 ≤ o.max_keys
    → IsLimiter o m
    → IsLimiter o (try_acquire o now key tokens m).1
unfolding try_acquire
try_acquire-IsLimiter o now key tokens m p l =
    let r = take_bucket-HasRoom o now key m p l in
    let (bucket, rest) = take_bucket o now key m in
    let kept : (b : Bucket) → b.tokens ≤ units o o.capacity → IsLimiter o (Dict.set key b rest) =
      λ b h. record {
        distinct = Dict.set-IsMap key b rest r.distinct;
        small = ground (arith, Dict.length-set key b rest, r.room, r.fresh);
        filled = set-IsFilled o key b rest h r.filled;
      } in
    elim (Bool-cases (leb (units o tokens) bucket.tokens)) [
      | inl enough ↦ rw enough (kept _ (omega (arith, r.fits)))
      | inr short ↦ rw short (kept bucket r.fits)
    ]

-- ===== src/RateLimit.antt =====
-- apps/dashboard/lib/rate-limit.ts: the token bucket of each client. A rate of `refill_num` tokens
-- in `refill_den` seconds stands for `refillPerSecond`, and tokens are counted in units of which one
-- token has 1000 * refill_den: a millisecond adds `refill_num` units, and nothing is rounded.
pub mod Bounds
pub mod Retry
pub mod Tests
use trace_bloom.Base.{
  ℕ, ◌+◌, ◌-◌, ◌*◌, ◌/◌, min, max, String, Bool, true, false, Option, none, some, List, [], ◌∷◌,
  ◌++◌, leb, if◌then◌else◌, length, or_else, string_eq,
}
use trace_bloom.Text.{is_empty}
use trace_bloom.Dict
use trace_bloom.Dict.{Dict}

-- RateLimitOptions.
pub record RateLimitOptions : Type 0 where
  pub capacity : ℕ
  pub refill_num : ℕ
  pub refill_den : ℕ
  pub max_keys : ℕ

-- RateLimitDecision.
pub data RateLimitDecision : Type 0 where
  allowed : RateLimitDecision
  denied : ℕ → RateLimitDecision

pub record Bucket : Type 0 where
  pub tokens : ℕ
  pub updated_ms : ℕ

abbrev pub units : RateLimitOptions → ℕ → ℕ
units o tokens = tokens * (1000 * o.refill_den)

abbrev pub is_allowed : RateLimitDecision → Bool
is_allowed allowed = true
is_allowed (denied seconds) = false

-- `Math.ceil(a / b)`, for a positive b.
unfoldable pub ceil_div : ℕ → ℕ → ℕ
ceil_div a b = (a + (b - 1)) / b

-- A bucket that is there, at `nowMs`.
unfoldable pub refresh : RateLimitOptions → ℕ → Bucket → Bucket
refresh o now bucket = record {
  tokens = min (units o o.capacity) (bucket.tokens + (now - bucket.updated_ms) * o.refill_num);
  updated_ms = now;
}

-- `buckets.delete(buckets.keys().next().value)`.
abbrev pub drop_oldest {ℓ} : {A : Type ℓ} → List A → List A
drop_oldest [] = []
drop_oldest (x ∷ xs) = xs

-- The bucket of a key, and the map it is put back into: without it, or with room for it.
unfoldable pub take_bucket :
    RateLimitOptions → ℕ → String → Dict String Bucket → Bucket × Dict String Bucket
unfolding refresh
take_bucket o now key buckets = elim (Dict.get key buckets) [
  | some bucket ↦ (refresh o now bucket, Dict.delete key buckets)
  | none ↦ (
    record { tokens = units o o.capacity; updated_ms = now },
    if leb o.max_keys (length buckets) then drop_oldest buckets else buckets,
  )
]

-- tryAcquire.
unfoldable pub try_acquire :
    RateLimitOptions → ℕ → String → ℕ → Dict String Bucket → RateLimitDecision × Dict String Bucket
unfolding take_bucket ceil_div
try_acquire o now key tokens buckets =
    let (bucket, rest) = take_bucket o now key buckets in
    if leb (units o tokens) bucket.tokens
    then (allowed, Dict.set key (record bucket { tokens = bucket.tokens - units o tokens }) rest)
    else (
      denied (max 1 (ceil_div (units o tokens - bucket.tokens) (1000 * o.refill_num))),
      Dict.set key bucket rest,
    )

-- clientKey: the trimmed CF-Connecting-IP header, and the trimmed hops of X-Forwarded-For.
abbrev last_hop : List String → Option String
last_hop [] = none
last_hop (hop ∷ hops) = some (or_else (last_hop hops) hop)

abbrev non_empty : List String → List String
non_empty [] = []
non_empty (hop ∷ hops) = if is_empty hop then non_empty hops else hop ∷ non_empty hops

unfoldable pub client_key : Option String → Option (List String) → String
client_key connecting_ip forwarded =
    let forwarded_key = or_else (last_hop (non_empty (or_else forwarded []))) "local" in
    let ip = or_else connecting_ip "" in if is_empty ip then forwarded_key else ip

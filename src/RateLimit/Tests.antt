-- ===== src/RateLimit/Tests.antt =====
-- Runs of lib/rate-limit.ts on small inputs, and the theorems at inputs that meet their hypotheses.
use trace_bloom.Base.{
  ℕ, ◌+◌, ◌-◌, ◌*◌, ◌≤◌, ◌≡◌, refl, String, List, [], ◌∷◌, none, some, string_eq, arith,
}
use trace_bloom.Text.{is_empty}
use trace_bloom.Dict
use trace_bloom.Dict.{Dict, keys}
use trace_bloom.RateLimit.{
  RateLimitOptions, denied, Bucket, units, refresh, ceil_div, take_bucket, try_acquire, client_key,
}
use trace_bloom.RateLimit.Bounds.{IsLimiter, try_acquire-IsLimiter}
use trace_bloom.RateLimit.Retry.{available, granted, granted-le}

-- Two tokens at most, one more each three seconds, two clients.
abbrev options : RateLimitOptions
options = record { capacity = 2; refill_num = 1; refill_den = 3; max_keys = 2 }

abbrev requests : List (ℕ × ℕ)
requests = (0, 1) ∷ (10, 1) ∷ (20, 1) ∷ (3_500, 1) ∷ []

abbrev used : Dict String Bucket
used =
    ("a", record { tokens = 1_000; updated_ms = 50 })
    ∷ ("b", record { tokens = 0; updated_ms = 60 })
    ∷ []

limiter_runs :
    (granted options "a" requests [] ≡ 3)
    × ((try_acquire options 60 "b" 1 used).0 ≡ denied 3)
    × (keys (try_acquire options 70 "a" 1 used).1 ≡ "b" ∷ "a" ∷ [])
    × (keys (try_acquire options 70 "c" 1 used).1 ≡ "b" ∷ "c" ∷ [])
unfolding granted try_acquire take_bucket refresh ceil_div Dict.get Dict.set Dict.delete
limiter_runs = (refl, refl, refl, refl)

client_key_runs :
    (client_key (some "1.1.1.1") (some ("2.2.2.2" ∷ [])) ≡ "1.1.1.1")
    × (client_key none (some ("9.9.9.9" ∷ "2.2.2.2" ∷ "" ∷ [])) ≡ "2.2.2.2")
    × (client_key (some "") none ≡ "local")
unfolding client_key is_empty
client_key_runs = (refl, refl, refl)

used-IsLimiter : IsLimiter options used
used-IsLimiter = record {
  distinct = (refl, (refl, tt));
  small = omega arith;
  filled = (omega arith, (omega arith, tt));
}

try_acquire-IsLimiter_example : IsLimiter options (try_acquire options 70 "c" 1 used).1
try_acquire-IsLimiter_example =
    try_acquire-IsLimiter options 70 "c" 1 used (omega arith) used-IsLimiter

granted-le_example :
    units options (granted options "a" requests [])
    ≤ available options 0 "a" [] + (4_000 - 0) * options.refill_num
granted-le_example =
    granted-le options "a" 0 4_000 requests []
      (omega arith, (omega arith, (omega arith, (omega arith, omega arith))))

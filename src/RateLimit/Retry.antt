-- ===== src/RateLimit/Retry.antt =====
-- What a client is granted over any run of its requests.
use trace_bloom.Base.{
  ℕ, ◌+◌, ◌-◌, ◌*◌, ◌≤◌, ◌≡◌, refl, inl, inr, String, none, some, List, [], ◌∷◌, arith, leb, min,
  if◌then◌else◌, string_eq, Bool-cases, Option-cases, ap, ◌∙◌,
}
use native.Mathlib.Nat.{add-mul, mul-le-mul_right}
use trace_bloom.Dict
use trace_bloom.Dict.{Dict}
use trace_bloom.RateLimit.{
  RateLimitOptions, Bucket, units, refresh, take_bucket, try_acquire, is_allowed,
}

-- The tokens that a key has at a time, in units.
abbrev pub available : RateLimitOptions → ℕ → String → Dict String Bucket → ℕ
available o now key m = (take_bucket o now key m).0.tokens

take_bucket-updated :
    (o : RateLimitOptions) (now : ℕ) (key : String) (m : Dict String Bucket)
    → (take_bucket o now key m).0.updated_ms ≡ now
unfolding take_bucket refresh
take_bucket-updated o now key m = elim (Option-cases (Dict.get key m)) [
  | inl e ↦ rw (e, take_bucket) refl
  | inr (b, e) ↦ rw (e, take_bucket) refl
]

-- What is left of a bucket, and when.
try_acquire-get :
    (o : RateLimitOptions) (now : ℕ) (key : String) (n : ℕ) (m : Dict String Bucket)
    → Dict.get key (try_acquire o now key n m).1
      ≡ some (record {
        tokens =
            if leb (units o n) (available o now key m)
            then available o now key m - units o n
            else available o now key m;
        updated_ms = now;
      })
unfolding try_acquire
try_acquire-get o now key n m = elim (Bool-cases (leb (units o n) (available o now key m))) [
  | inl enough ↦ rw enough (
      Dict.get-set_self key _ _
      ∙ ap (λ t. some (record { tokens = available o now key m - units o n; updated_ms = t }))
          (take_bucket-updated o now key m))
  | inr short ↦ rw short (
      Dict.get-set_self key _ _
      ∙ ap (λ t. some (record { tokens = available o now key m; updated_ms = t }))
          (take_bucket-updated o now key m))
]

available-some :
    (o : RateLimitOptions) (now : ℕ) (key : String) (m : Dict String Bucket) (b : Bucket)
    → Dict.get key m ≡ some b
    → available o now key m
      ≡ min (units o o.capacity) (b.tokens + (now - b.updated_ms) * o.refill_num)
unfolding take_bucket refresh
available-some o now key m b e = rw (e, available, take_bucket) refl

available-later :
    (o : RateLimitOptions) (now later : ℕ) (key : String) (n : ℕ) (m : Dict String Bucket)
    → available o later key (try_acquire o now key n m).1
      ≡ min (units o o.capacity) (
          (if leb (units o n) (available o now key m)
            then available o now key m - units o n
            else available o now key m)
          + (later - now) * o.refill_num)
available-later o now later key n m =
    available-some o later key (try_acquire o now key n m).1 _ (try_acquire-get o now key n m)

try_acquire-decision :
    (o : RateLimitOptions) (now : ℕ) (key : String) (n : ℕ) (m : Dict String Bucket)
    → is_allowed (try_acquire o now key n m).0 ≡ leb (units o n) (available o now key m)
unfolding try_acquire
try_acquire-decision o now key n m = elim (Bool-cases (leb (units o n) (available o now key m))) [
  | inl enough ↦ rw enough refl
  | inr short ↦ rw short refl
]

-- The requests of one client, with their times in order between two times.
abbrev pub IsTimed : ℕ → ℕ → List (ℕ × ℕ) → Type 0
IsTimed start end [] = start ≤ end
IsTimed start end ((t, n) ∷ requests) = (start ≤ t) × IsTimed t end requests

-- The tokens that a run of requests is granted.
unfoldable pub granted : RateLimitOptions → String → List (ℕ × ℕ) → Dict String Bucket → ℕ
granted o key [] m = 0
granted o key ((t, n) ∷ requests) m =
    let (decision, next) = try_acquire o t key n m in
    (if is_allowed decision then n else 0) + granted o key requests next

IsTimed-le : (start end : ℕ) (requests : List (ℕ × ℕ)) → IsTimed start end requests → start ≤ end
IsTimed-le start end [] h = h
IsTimed-le start end ((t, n) ∷ requests) h = omega (arith, IsTimed-le t end requests h.1)

elapsed-split : (a b c rate : ℕ) → a ≤ b → b ≤ c → (c - a) * rate ≡ (b - a) * rate + (c - b) * rate
elapsed-split a b c rate h k = ap (λ t. t * rate) (whole a b c h k) ∙ add-mul (b - a) (c - b) rate
  where
    whole : (a b c : ℕ) → a ≤ b → b ≤ c → c - a ≡ (b - a) + (c - b)
    whole a b c h k = omega arith

available-none :
    (o : RateLimitOptions) (now : ℕ) (key : String) (m : Dict String Bucket)
    → Dict.get key m ≡ none
    → available o now key m ≡ units o o.capacity
unfolding take_bucket
available-none o now key m e = rw (e, available, take_bucket) refl

available-grows :
    (o : RateLimitOptions) (now later : ℕ) (key : String) (m : Dict String Bucket)
    → now ≤ later
    → available o later key m ≤ available o now key m + (later - now) * o.refill_num
available-grows o now later key m h = elim (Option-cases (Dict.get key m)) [
  | inl e ↦ ground (arith, available-none o now key m e, available-none o later key m e)
  | inr (b, e) ↦
      let spent : later - b.updated_ms ≤ (now - b.updated_ms) + (later - now) = omega arith in
      let more = mul-le-mul_right o.refill_num spent in
      let sum = add-mul (now - b.updated_ms) (later - now) o.refill_num in
      omega (arith, available-some o now key m b e, available-some o later key m b e)
]

-- However often and whenever a client asks, the tokens it is granted over a run of requests of its
-- own are at most those it had at the start, and what the rate adds until the end.
pub granted-le :
    (o : RateLimitOptions) (key : String) (start end : ℕ) (requests : List (ℕ × ℕ))
    (m : Dict String Bucket)
    → IsTimed start end requests
    → units o (granted o key requests m) ≤ available o start key m + (end - start) * o.refill_num
unfolding granted
granted-le o key start end [] m h = omega arith
granted-le o key start end ((t, n) ∷ requests) m h =
    let rest = granted-le o key t end requests (try_acquire o t key n m).1 h.1 in
    let ends = IsTimed-le t end requests h.1 in
    ground (
      arith,
      rest,
      available-later o t t key n m,
      try_acquire-decision o t key n m,
      available-grows o start t key m h.0,
      elapsed-split start t end o.refill_num h.0 ends,
      add-mul n (granted o key requests (try_acquire o t key n m).1) (1000 * o.refill_den),
    )

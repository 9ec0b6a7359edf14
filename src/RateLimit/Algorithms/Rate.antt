-- ===== src/RateLimit/Algorithms/Rate.antt =====
-- How many requests a token bucket admits in a span of time.
use atraport_api.Prelude.{
  ℕ, ◌+◌, ◌-◌, ◌*◌, ◌≤◌, String, Option, none, some, List, [], ◌∷◌, ◌≡◌, refl, arith, if◌then◌else◌,
  eq_refl,
}
use atraport_api.Prelude.JsMap
use atraport_api.Prelude.JsMap.{JsMap, get-set}
use atraport_api.RateLimit.Algorithms.{
  RateLimitPolicy, TokenBucketState, TokenBucketRateLimiter, take_token, bucket_consume, refilled,
  bucket_result, current_bucket,
}

-- The times do not go backwards, from `start` to `end`.
abbrev pub Ascending : ℕ → List ℕ → ℕ → Type 0
Ascending start [] end = start ≤ end
Ascending start (now ∷ rest) end = (start ≤ now) × Ascending now rest end

Ascending-le : (start end : ℕ) (times : List ℕ) → Ascending start times end → start ≤ end
Ascending-le start end [] h = h
Ascending-le start end (now ∷ rest) (le, h) = omega (arith, Ascending-le now end rest h)

-- The requests of one key under one policy at these times, one after the other: how many are
-- admitted.
pub admitted : String → RateLimitPolicy → List ℕ → TokenBucketRateLimiter → ℕ
admitted key policy [] buckets = 0
admitted key policy (now ∷ rest) buckets =
    let (result, buckets') = bucket_consume key policy now buckets in
    (if result.allowed then 1 else 0) + admitted key policy rest buckets'

-- The bucket belongs to the policy.
record IsOf (policy : RateLimitPolicy) (b : TokenBucketState) : Type 0 where
  limit : b.limit ≡ policy.limit
  window : b.window_ms ≡ policy.window_ms

current_bucket-IsOf :
    (policy : RateLimitPolicy) (now : ℕ) (found : Option TokenBucketState)
    → IsOf policy (current_bucket policy now found)
unfolding current_bucket
current_bucket-IsOf policy now none = record { limit = refl; window = refl }
current_bucket-IsOf policy now (some b) = record { limit = ground arith; window = ground arith }

current_bucket_same :
    (policy : RateLimitPolicy) (now : ℕ) (b : TokenBucketState)
    → IsOf policy b
    → current_bucket policy now (some b) ≡ b
unfolding current_bucket
current_bucket_same policy now b h = ground (arith, h.limit, h.window)

take_token-IsOf :
    (policy : RateLimitPolicy) (now : ℕ) (b : TokenBucketState)
    → IsOf policy b
    → IsOf policy (take_token policy now b).1
unfolding take_token
take_token-IsOf policy now b h = record { limit = h.limit; window = h.window }

last_refill-take_token :
    (policy : RateLimitPolicy) (now : ℕ) (b : TokenBucketState)
    → (take_token policy now b).1.last_refill ≡ now
unfolding take_token
last_refill-take_token policy now b = refl

abbrev taken : RateLimitPolicy → ℕ → TokenBucketState → ℕ
taken policy now b = if (take_token policy now b).0.allowed then 1 else 0

-- One request: the units taken out and those left are the units refilled.
take_token_units :
    (policy : RateLimitPolicy) (now : ℕ) (b : TokenBucketState)
    → taken policy now b * policy.window_ms + (take_token policy now b).1.units
      ≡ refilled policy now b
unfolding take_token bucket_result
take_token_units policy now b = ground arith

refilled_bounds :
    (policy : RateLimitPolicy) (now : ℕ) (b : TokenBucketState)
    → (refilled policy now b ≤ policy.limit * policy.window_ms)
      × (refilled policy now b ≤ b.units + (now - b.last_refill) * policy.limit)
unfolding refilled
refilled_bounds policy now b = omega arith

chain_arith :
    (w l a c u u' now start end : ℕ)
    → start ≤ now
    → now ≤ end
    → a * w ≤ u' + (end - now) * l
    → c * w + u' ≤ u + (now - start) * l
    → (c + a) * w ≤ u + (end - start) * l
chain_arith w l a c u u' now start end h k p q =
    let whole : end - start ≡ (end - now) + (now - start) = omega arith in
    let split : (end - start) * l ≡ (end - now) * l + (now - start) * l = rw whole (omega arith) in
    omega (arith, split)

admitted-cons :
    (key : String) (policy : RateLimitPolicy) (now : ℕ) (rest : List ℕ)
    (buckets : TokenBucketRateLimiter)
    → let b = current_bucket policy now (JsMap.get key buckets) in
      admitted key policy (now ∷ rest) buckets
      ≡ taken policy now b
        + admitted key policy rest (JsMap.set key (take_token policy now b).1 buckets)
unfolding admitted bucket_consume
admitted-cons key policy now rest buckets = refl

get-set_self :
    (key : String) (b : TokenBucketState) (buckets : TokenBucketRateLimiter)
    → JsMap.get key (JsMap.set key b buckets) ≡ some b
get-set_self key b buckets = rw get-set (rw (eq_refl key))

admitted-le :
    (key : String) (policy : RateLimitPolicy) (times : List ℕ) (end : ℕ) (b : TokenBucketState)
    (buckets : TokenBucketRateLimiter)
    → JsMap.get key buckets ≡ some b
    → IsOf policy b
    → Ascending b.last_refill times end
    → admitted key policy times buckets * policy.window_ms
      ≤ b.units + (end - b.last_refill) * policy.limit
admitted-le key policy [] end b buckets found of h = unfold admitted in omega arith
admitted-le key policy (now ∷ rest) end b buckets found of (le, h) =
    let b' = (take_token policy now b).1 in
    let ih =
      admitted-le key policy rest end b' (JsMap.set key b' buckets) (get-set_self key b' buckets)
        (take_token-IsOf policy now b of) (rw last_refill-take_token h) in
    let ih' : admitted key policy rest (JsMap.set key b' buckets) * policy.window_ms
        ≤ b'.units + (end - now) * policy.limit =
      rw last_refill-take_token at ih in
    rw (admitted-cons, found, current_bucket_same policy now b of)
      (chain_arith policy.window_ms policy.limit
        (admitted key policy rest (JsMap.set key b' buckets)) (taken policy now b) b.units b'.units
        now b.last_refill end le (Ascending-le now end rest h) ih'
        (omega (arith, take_token_units policy now b, refilled_bounds policy now b)))

-- Whatever the limiter has seen before, the requests of one key under one policy, at times that do
-- not go backwards, are admitted at most as often as a full bucket and the refill since the first of
-- them allow: the admitted number times the window is at most
-- limit * window + (end - start) * limit.
pub admitted_rate :
    (key : String) (policy : RateLimitPolicy) (start end : ℕ) (rest : List ℕ)
    (buckets : TokenBucketRateLimiter)
    → Ascending start rest end
    → admitted key policy (start ∷ rest) buckets * policy.window_ms
      ≤ policy.limit * policy.window_ms + (end - start) * policy.limit
admitted_rate key policy start end rest buckets h =
    let b = current_bucket policy start (JsMap.get key buckets) in
    let b' = (take_token policy start b).1 in
    let later =
      admitted-le key policy rest end b' (JsMap.set key b' buckets) (get-set_self key b' buckets)
        (take_token-IsOf policy start b (current_bucket-IsOf policy start (JsMap.get key buckets)))
        (rw last_refill-take_token h) in
    let later' : admitted key policy rest (JsMap.set key b' buckets) * policy.window_ms
        ≤ b'.units + (end - start) * policy.limit =
      rw last_refill-take_token at later in
    rw admitted-cons
      (omega (arith, later', take_token_units policy start b, refilled_bounds policy start b))

-- ===== src/RateLimit/Algorithms/Bucket.antt =====
-- The token bucket: how many requests it can admit, and what its answers promise.
use atraport_api.Prelude.{
  ℕ, ◌+◌, ◌-◌, ◌*◌, ◌/◌, ◌≤◌, ◌<◌, true, false, ◌≡◌, refl, sym, ap, ◌∙◌, ◌↔◌, arith, max, min,
  leb→le, le→leb, leb, if◌then◌else◌,
}
use atraport_api.RateLimit.Algorithms.{
  RateLimitPolicy, TokenBucketState, ceil_div, take_token, refilled, bucket_result,
}

-- One request: the units taken out and left are those refilled.
take_token_units :
    (policy : RateLimitPolicy) (now : ℕ) (b : TokenBucketState)
    → (if (take_token policy now b).0.allowed then policy.window_ms else 0)
        + (take_token policy now b).1.units
      ≤ b.units + (now - b.last_refill) * policy.limit
unfolding take_token
take_token_units policy now b = ground arith

ceil_div-le_iff : (a b d : ℕ) → 0 < b → (ceil_div a b ≤ d) ↔ (a ≤ d * b)
ceil_div-le_iff a b d h = (λ le. grind arith, λ le. grind arith)

le_window : (l w : ℕ) → 0 < l → w ≤ l * w
le_window l w h = grind arith

retry_arith :
    (l w u d : ℕ)
    → 0 < l
    → 0 < w
    → u < w
    → (w ≤ min (l * w) (u + d * l)) ↔ (max 1 (ceil_div (w - u) l) ≤ d)
retry_arith l w u d hl hw hu = (
  λ h.
      let below : ceil_div (w - u) l ≤ d = (ceil_div-le_iff (w - u) l d hl).1 (omega arith) in
      let pos : 1 ≤ d = grind arith in omega (arith, below, pos),
  λ h.
      let enough : w - u ≤ d * l = (ceil_div-le_iff (w - u) l d hl).0 (omega arith) in
      omega (arith, le_window l w hl),
)

allowed-take_token :
    (policy : RateLimitPolicy) (now : ℕ) (b : TokenBucketState)
    → (take_token policy now b).0.allowed ≡ leb policy.window_ms (refilled policy now b)
unfolding take_token bucket_result
allowed-take_token policy now b = refl

-- A refused request refills the bucket and takes nothing.
refused_state :
    (policy : RateLimitPolicy) (now : ℕ) (b : TokenBucketState)
    → leb policy.window_ms (refilled policy now b) ≡ false
    → ((take_token policy now b).1 ≡ record b { units = refilled policy now b; last_refill = now })
      × ((take_token policy now b).0.retry_after_ms
          ≡ max 1 (ceil_div (policy.window_ms - refilled policy now b) policy.limit))
unfolding bucket_result take_token
refused_state policy now b refused = (rw refused, rw refused)

refilled_later :
    (policy : RateLimitPolicy) (now d units : ℕ) (b : TokenBucketState)
    → refilled policy (now + d) (record b { units = units; last_refill = now })
      ≡ min (policy.limit * policy.window_ms) (units + d * policy.limit)
unfolding refilled
refilled_later policy now d units b = let e : now + d - now ≡ d = omega arith in rw e

-- After a refused request, a request of the same key and policy that comes `d` milliseconds later
-- is admitted exactly if `d` is at least the reported `retryAfterMs`.
pub bucket_retry_exact :
    (policy : RateLimitPolicy) (now d : ℕ) (b : TokenBucketState)
    → 0 < policy.limit
    → 0 < policy.window_ms
    → (take_token policy now b).0.allowed ≡ false
    → ((take_token policy (now + d) (take_token policy now b).1).0.allowed ≡ true)
      ↔ ((take_token policy now b).0.retry_after_ms ≤ d)
bucket_retry_exact policy now d b hl hw refused =
    let u = refilled policy now b in
    let low : leb policy.window_ms u ≡ false = sym (allowed-take_token policy now b) ∙ refused in
    let (state, retry) = refused_state policy now b low in
    let exact = retry_arith policy.limit policy.window_ms u d hl hw (ground arith) in
    rw (state, retry)
      (rw allowed-take_token
        (rw refilled_later ((λ h. exact.0 (leb→le _ _ h)), (λ h. le→leb _ _ (exact.1 h)))))

-- The units after a request, admitted or not.
units_left : RateLimitPolicy → ℕ → TokenBucketState → ℕ
units_left policy now b = (take_token policy now b).1.units

units_left-le :
    (policy : RateLimitPolicy) (now : ℕ) (b : TokenBucketState)
    → units_left policy now b ≤ policy.limit * policy.window_ms
unfolding units_left take_token
units_left-le policy now b = ground arith

refilled_now :
    (policy : RateLimitPolicy) (now d : ℕ) (b : TokenBucketState)
    → refilled policy (now + d) (take_token policy now b).1
      ≡ min (policy.limit * policy.window_ms) (units_left policy now b + d * policy.limit)
unfolding units_left take_token
refilled_now policy now d b = rw refilled_later

result_left :
    (policy : RateLimitPolicy) (now : ℕ) (b : TokenBucketState)
    → ((take_token policy now b).0.remaining ≡ units_left policy now b / policy.window_ms)
      × ((take_token policy now b).0.reset_at
          ≡ now + ceil_div (policy.limit * policy.window_ms - units_left policy now b) policy.limit)
unfolding units_left take_token bucket_result
result_left policy now b = (refl, refl)

full_arith : (l full u : ℕ) → 0 < l → u ≤ full → min full (u + ceil_div (full - u) l * l) ≡ full
full_arith l full u hl le =
    let enough : full - u ≤ ceil_div (full - u) l * l =
      (ceil_div-le_iff (full - u) l (ceil_div (full - u) l) hl).0 (omega arith) in
    omega (arith, enough)

-- At the reported `resetAt`, if no request comes in between, the bucket is full again.
pub bucket_reset_full :
    (policy : RateLimitPolicy) (now : ℕ) (b : TokenBucketState)
    → 0 < policy.limit
    → refilled policy (take_token policy now b).0.reset_at (take_token policy now b).1
      ≡ policy.limit * policy.window_ms
bucket_reset_full policy now b hl = rw ((result_left policy now b).1) (
    rw refilled_now (
      full_arith policy.limit (policy.limit * policy.window_ms) (units_left policy now b) hl
        (units_left-le policy now b)))

remaining_arith : (w u : ℕ) → 0 < w → (leb w u ≡ true) ↔ (0 < u / w)
remaining_arith w u hw = (λ h. let le = leb→le w u h in grind arith, λ h. le→leb w u (grind arith))

-- Of further requests in the same millisecond the next one is admitted exactly if the reported
-- `remaining` is positive.
pub bucket_remaining_exact :
    (policy : RateLimitPolicy) (now : ℕ) (b : TokenBucketState)
    → 0 < policy.window_ms
    → ((take_token policy now (take_token policy now b).1).0.allowed ≡ true)
      ↔ (0 < (take_token policy now b).0.remaining)
bucket_remaining_exact policy now b hw =
    let here : now ≡ now + 0 = omega arith in
    let same : refilled policy now (take_token policy now b).1 ≡ units_left policy now b =
      ap (λ t. refilled policy t (take_token policy now b).1) here
      ∙ refilled_now policy now 0 b
      ∙ omega (arith, units_left-le policy now b) in
    rw (allowed-take_token, (result_left policy now b).0)
      (rw same (remaining_arith policy.window_ms (units_left policy now b) hw))

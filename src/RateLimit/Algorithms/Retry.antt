-- ===== src/RateLimit/Algorithms/Retry.antt =====
-- How long a refused client of the sliding window has to wait.
use atraport_api.Prelude.{
  ℕ, ◌+◌, ◌-◌, ◌≤◌, ◌<◌, Bool, true, false, List, [], ◌∷◌, ◌≡◌, refl, sym, ◌∙◌, ◌↔◌, arith, max,
  ltb, length, filter, All, All-filter, length-filter, Bool-cases, inl, inr, ltb→lt, leb→le,
}
use atraport_api.RateLimit.Algorithms.{
  RateLimitPolicy, take_slot, window_result, reset_time, in_window,
}
use atraport_api.RateLimit.Algorithms.Window.{kept_refused}

-- The timestamps in the order of admission.
abbrev pub Sorted : List ℕ → Type 0
Sorted [] = Unit
Sorted (x ∷ xs) = All (λ y. x ≤ y) xs × Sorted xs

filter-Sorted : (p : ℕ → Bool) (xs : List ℕ) → Sorted xs → Sorted (filter p xs)
filter-Sorted p [] h = tt
filter-Sorted p (x ∷ xs) h =
    ground (arith, filter-Sorted p xs h.1, All-filter (λ y. x ≤ y) p xs h.0)

filter_same :
    (policy : RateLimitPolicy) (later oldest : ℕ) (xs : List ℕ)
    → later < oldest + policy.window_ms
    → All (λ y. oldest ≤ y) xs
    → filter (in_window policy later) xs ≡ xs
filter_same policy later oldest [] h k = refl
filter_same policy later oldest (x ∷ xs) h k =
    ground (arith, filter_same policy later oldest xs h k.1)

allowed-take_slot :
    (policy : RateLimitPolicy) (now : ℕ) (ts : List ℕ)
    → (take_slot policy now ts).0.allowed
      ≡ ltb (length (filter (in_window policy now) ts)) policy.limit
unfolding take_slot
allowed-take_slot policy now ts = refl

retry-take_slot :
    (policy : RateLimitPolicy) (now : ℕ) (ts : List ℕ)
    → ltb (length (filter (in_window policy now) ts)) policy.limit ≡ false
    → (take_slot policy now ts).0.retry_after_ms
      ≡ max 1 (reset_time policy now (filter (in_window policy now) ts) - now)
unfolding take_slot window_result
retry-take_slot policy now ts full = rw full

filter-holds :
    (policy : RateLimitPolicy) (now : ℕ) (xs : List ℕ)
    → All (λ y. now < y + policy.window_ms) (filter (in_window policy now) xs)
filter-holds policy now [] = tt
filter-holds policy now (x ∷ xs) = ground (arith, filter-holds policy now xs)

retry_of_recent :
    (policy : RateLimitPolicy) (now d : ℕ) (recent : List ℕ)
    → 0 < policy.limit
    → All (λ y. now < y + policy.window_ms) recent
    → Sorted recent
    → length recent ≤ policy.limit
    → ltb (length recent) policy.limit ≡ false
    → (ltb (length (filter (in_window policy (now + d)) recent)) policy.limit ≡ true)
      ↔ (max 1 (reset_time policy now recent - now) ≤ d)
unfolding reset_time
retry_of_recent policy now d [] pos live sorted few full = absurd (ground arith)
retry_of_recent policy now d (oldest ∷ rest) pos live sorted few full = (
  λ admitted. elim (Bool-cases (ltb (now + d) (oldest + policy.window_ms))) [
    | inl early ↦
        let same = filter_same policy (now + d) oldest rest (ltb→lt _ _ early) sorted.0 in
        absurd (ground (arith, same))
    | inr late ↦ omega (arith, leb→le (oldest + policy.window_ms) (now + d) (ground arith), live.0)
  ],
  λ waited.
      let fewer = length-filter (in_window policy (now + d)) rest in
      let late : ltb (now + d) (oldest + policy.window_ms) ≡ false = ground arith in
      rw late (ground arith),
)

-- After a refused request, where the key has no more timestamps than the limit, a request that comes
-- `d` milliseconds later is admitted exactly if `d` is at least the reported `retryAfterMs`.
pub window_retry_exact :
    (policy : RateLimitPolicy) (now d : ℕ) (ts : List ℕ)
    → 0 < policy.limit
    → Sorted ts
    → length ts ≤ policy.limit
    → (take_slot policy now ts).0.allowed ≡ false
    → ((take_slot policy (now + d) (take_slot policy now ts).1).0.allowed ≡ true)
      ↔ ((take_slot policy now ts).0.retry_after_ms ≤ d)
window_retry_exact policy now d ts pos sorted few refused =
    let recent = filter (in_window policy now) ts in
    let full : ltb (length recent) policy.limit ≡ false =
      sym (allowed-take_slot policy now ts) ∙ refused in
    rw (kept_refused policy now ts full) (
      rw (allowed-take_slot, retry-take_slot policy now ts full)
        (retry_of_recent policy now d recent pos (filter-holds policy now ts)
          (filter-Sorted (in_window policy now) ts sorted)
          (omega (arith, length-filter (in_window policy now) ts)) full))

-- ===== src/RateLimit/Algorithms/Window.antt =====
-- The sliding window: at no time are there more admitted requests in the window than the limit.
use atraport_api.Prelude.{
  ℕ, ◌+◌, ◌≤◌, ◌<◌, String, Bool, true, false, ◌&&◌, none, List, [], ◌∷◌, ◌++◌, ◌≡◌, refl, ◌∙◌,
  arith, ltb, leb, length, filter, length-filter, length-append, filter-append, if◌then◌else◌,
  Bool-cases, inl, inr, eq_refl, ltb→lt,
}
use mathlib.Core.List.{append_assoc, append-nil}
use atraport_api.Prelude.JsMap
use atraport_api.Prelude.JsMap.{JsMap, get-set}
use atraport_api.RateLimit.Algorithms.{
  RateLimitPolicy, SlidingWindowRateLimiter, take_slot, window_consume, window_result, in_window,
  timestamps_of,
}
use atraport_api.RateLimit.Algorithms.Rate.{Ascending}

-- The admitted ones of the requests of one key under one policy at these times.
pub admitted_times : String → RateLimitPolicy → List ℕ → SlidingWindowRateLimiter → List ℕ
admitted_times key policy [] windows = []
admitted_times key policy (now ∷ rest) windows =
    let (result, windows') = window_consume key policy now windows in
    let later = admitted_times key policy rest windows' in
    if result.allowed then now ∷ later else later

-- A request at `a` counts in the window that ends at `t`.
abbrev pub within : RateLimitPolicy → ℕ → ℕ → Bool
within policy t a = in_window policy t a && leb a t

-- What is in a later window is in the earlier one.
filter-filter :
    (policy : RateLimitPolicy) (now later : ℕ) (ts : List ℕ)
    → now ≤ later
    → filter (in_window policy later) (filter (in_window policy now) ts)
      ≡ filter (in_window policy later) ts
filter-filter policy now later [] h = refl
filter-filter policy now later (a ∷ ts) h = ground (arith, filter-filter policy now later ts h)

within-le :
    (policy : RateLimitPolicy) (now t : ℕ) (ts : List ℕ)
    → now ≤ t
    → length (filter (within policy t) ts) ≤ length (filter (in_window policy now) ts)
within-le policy now t [] h = omega arith
within-le policy now t (a ∷ ts) h = ground (arith, within-le policy now t ts h)

-- A list without the new request, for the windows that end before it.
within_before :
    (policy : RateLimitPolicy) (now t : ℕ) → t < now → filter (within policy t) (now ∷ []) ≡ []
within_before policy now t h = ground arith

abbrev stamps : String → SlidingWindowRateLimiter → List ℕ
stamps key windows = timestamps_of (JsMap.get key windows)

stamps-consume :
    (key : String) (policy : RateLimitPolicy) (now : ℕ) (windows : SlidingWindowRateLimiter)
    → stamps key (window_consume key policy now windows).1
      ≡ (take_slot policy now (stamps key windows)).1
unfolding window_consume
stamps-consume key policy now windows = rw get-set (rw (eq_refl key))

allowed-consume :
    (key : String) (policy : RateLimitPolicy) (now : ℕ) (windows : SlidingWindowRateLimiter)
    → (window_consume key policy now windows).0.allowed
      ≡ ltb (length (filter (in_window policy now) (stamps key windows))) policy.limit
unfolding window_consume take_slot window_result
allowed-consume key policy now windows = refl

-- The key's timestamps and the history agree on every window from `last` on.
abbrev Agrees : RateLimitPolicy → ℕ → List ℕ → List ℕ → Type 0
Agrees policy last ts history =
    (now : ℕ)
    → last ≤ now
    → filter (in_window policy now) ts ≡ filter (in_window policy now) history

abbrev Within : RateLimitPolicy → List ℕ → Type 0
Within policy history = (t : ℕ) → length (filter (within policy t) history) ≤ policy.limit

Agrees-refused :
    (policy : RateLimitPolicy) (now last : ℕ) (ts history : List ℕ)
    → last ≤ now
    → Agrees policy last ts history
    → Agrees policy now (filter (in_window policy now) ts) history
Agrees-refused policy now last ts history le agrees later h =
    filter-filter policy now later ts h ∙ agrees later (omega arith)

Agrees-admitted :
    (policy : RateLimitPolicy) (now last : ℕ) (ts history : List ℕ)
    → last ≤ now
    → Agrees policy last ts history
    → Agrees policy now (filter (in_window policy now) ts ++ now ∷ []) (history ++ now ∷ [])
Agrees-admitted policy now last ts history le agrees later h =
    rw filter-append
      (rw filter-append (rw (Agrees-refused policy now last ts history le agrees later h)))

Within-admitted :
    (policy : RateLimitPolicy) (now last : ℕ) (ts history : List ℕ)
    → last ≤ now
    → Agrees policy last ts history
    → length (filter (in_window policy now) ts) < policy.limit
    → Within policy history
    → Within policy (history ++ now ∷ [])
Within-admitted policy now last ts history le agrees room bound t = elim (Bool-cases (ltb t now)) [
  | inl before ↦
      rw filter-append
        (rw (within_before policy now t (ltb→lt t now before)) (rw append-nil (bound t)))
  | inr after ↦
      let small : length (filter (in_window policy now) history) < policy.limit =
        rw (← agrees now le) room in
      let whole = within-le policy now t (history ++ now ∷ []) (ground arith) in
      let last_one = length-filter (in_window policy now) (now ∷ []) in
      let parts : length (filter (in_window policy now) (history ++ now ∷ []))
          ≡ length (filter (in_window policy now) history)
            + length (filter (in_window policy now) (now ∷ [])) =
        rw filter-append (
          length-append (filter (in_window policy now) history)
            (filter (in_window policy now) (now ∷ []))) in
      omega (arith, small, whole, last_one, parts)
]

kept_admitted :
    (policy : RateLimitPolicy) (now : ℕ) (ts : List ℕ)
    → ltb (length (filter (in_window policy now) ts)) policy.limit ≡ true
    → (take_slot policy now ts).1 ≡ filter (in_window policy now) ts ++ now ∷ []
unfolding take_slot
kept_admitted policy now ts room = rw room

pub kept_refused :
    (policy : RateLimitPolicy) (now : ℕ) (ts : List ℕ)
    → ltb (length (filter (in_window policy now) ts)) policy.limit ≡ false
    → (take_slot policy now ts).1 ≡ filter (in_window policy now) ts
unfolding take_slot
kept_refused policy now ts full = rw full

window_loop :
    (key : String) (policy : RateLimitPolicy) (times : List ℕ) (last end : ℕ) (history : List ℕ)
    (windows : SlidingWindowRateLimiter)
    → Ascending last times end
    → Agrees policy last (stamps key windows) history
    → Within policy history
    → Within policy (history ++ admitted_times key policy times windows)
unfolding admitted_times
window_loop key policy [] last end history windows h agrees bound = rw append-nil bound
window_loop key policy (now ∷ rest) last end history windows (le, h) agrees bound =
    elim (Bool-cases
      (ltb (length (filter (in_window policy now) (stamps key windows))) policy.limit)) [
        | inl room ↦
            rw (allowed-consume, room)
              (rw
                (← append_assoc history (now ∷ [])
                  (admitted_times key policy rest (window_consume key policy now windows).1))
                (window_loop key policy rest now end (history ++ now ∷ [])
                  (window_consume key policy now windows).1 h
                  (rw (stamps-consume, kept_admitted policy now (stamps key windows) room)
                    (Agrees-admitted policy now last (stamps key windows) history le agrees))
                  (Within-admitted policy now last (stamps key windows) history le agrees
                    (ltb→lt _ _ room) bound)))
        | inr full ↦
            rw (allowed-consume, full)
              (window_loop key policy rest now end history (window_consume key policy now windows).1
                h
                (rw (stamps-consume, kept_refused policy now (stamps key windows) full)
                  (Agrees-refused policy now last (stamps key windows) history le agrees))
                bound)
      ]

-- From a limiter that has not seen the key, the requests of the key under one policy, at times that do
-- not go backwards, are never admitted more than `limit` times in any window: for every time `t`, at
-- most `limit` of the admitted ones are at most `t` and later than `t - windowMs`.
pub window_never_exceeded :
    (key : String) (policy : RateLimitPolicy) (times : List ℕ) (start end t : ℕ)
    (windows : SlidingWindowRateLimiter)
    → JsMap.get key windows ≡ none
    → Ascending start times end
    → length (filter (within policy t) (admitted_times key policy times windows)) ≤ policy.limit
window_never_exceeded key policy times start end t windows new h =
    window_loop key policy times start end [] windows h (rw new (λ now le. refl))
      (λ t'. omega arith) t

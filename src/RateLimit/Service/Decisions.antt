-- ===== src/RateLimit/Service/Decisions.antt =====
-- When a request is let through, and which limit is reported.
use atraport_api.Prelude.{
  ℕ, ◌+◌, ◌*◌, ◌≤◌, ◌<◌, Bool, true, false, Option, none, some, List, [], ◌∷◌, ◌≡◌, refl, sym, ◌∙◌,
  ◌⊎◌, arith, find, all, All, Bool-cases, inl, inr,
}
use mathlib.Core.Path.{subst}
use native.Mathlib.Nat.{mul-le-mul_right, le_of_mul-le-mul_right}
use atraport_api.RateLimit.Algorithms.{RateLimitResult}
use atraport_api.RateLimit.Service.{
  RateLimitRequest, RateLimitOverride, AppliedLimit, RateLimitService,
}
use atraport_api.RateLimit.Service.Check.{
  check, limit_request, apply_limits, decide, is_exempt, is_denied, is_tighter, most_restrictive,
}

abbrev pub is_allowed : AppliedLimit → Bool
is_allowed limit = limit.result.allowed

pub find_denied :
    (limits : List AppliedLimit)
    → ((find is_denied limits ≡ none) × (all is_allowed limits ≡ true))
      ⊎ ((denied : AppliedLimit) × (find is_denied limits ≡ some denied)
          × (denied.result.allowed ≡ false)
          × (all is_allowed limits ≡ false))
find_denied [] = inl (refl, refl)
find_denied (l ∷ ls) = elim (Bool-cases l.result.allowed) [
  | inl yes' ↦ elim (find_denied ls) [
    | inl h ↦ inl (rw yes' h.0, rw yes' h.1)
    | inr h ↦ inr (h.0, rw yes' h.1, h.2, rw yes' h.3)
  ]
  | inr no' ↦ inr (l, rw no', no', rw no')
]

-- No other limit has less of it left, as a share of the limit.
abbrev pub IsTightest : RateLimitResult → List AppliedLimit → Type 0
IsTightest selected limits =
    All
      (λ (other : AppliedLimit).
        selected.remaining * other.result.limit ≤ other.result.remaining * selected.limit)
      limits

abbrev pub ArePositive : List AppliedLimit → Type 0
ArePositive limits = All (λ (l : AppliedLimit). 0 < l.result.limit) limits

tighter_trans :
    (r l r' l' r'' l'' : ℕ) → 0 < l' → r * l' ≤ r' * l → r' * l'' ≤ r'' * l' → r * l'' ≤ r'' * l
tighter_trans r l r' l' r'' l'' pos h k =
    let h' : r * l' * l'' ≤ r' * l * l'' = mul-le-mul_right l'' h in
    let k' : r' * l'' * l ≤ r'' * l' * l = mul-le-mul_right l k in
    let both : r * l'' * l' ≤ r'' * l * l' = omega (arith, h', k') in
    le_of_mul-le-mul_right both pos

IsTightest-trans :
    (best mid : RateLimitResult) (limits : List AppliedLimit)
    → 0 < mid.limit
    → best.remaining * mid.limit ≤ mid.remaining * best.limit
    → IsTightest mid limits
    → IsTightest best limits
IsTightest-trans best mid [] pos h k = tt
IsTightest-trans best mid (l ∷ ls) pos h (k, ks) = (
  tighter_trans best.remaining best.limit mid.remaining mid.limit l.result.remaining l.result.limit
      pos h k,
  IsTightest-trans best mid ls pos h ks,
)

most_restrictive-IsTightest :
    (selected : AppliedLimit) (rest : List AppliedLimit)
    → ArePositive (selected ∷ rest)
    → IsTightest (most_restrictive selected rest).result (selected ∷ rest)
unfolding most_restrictive
most_restrictive-IsTightest selected [] pos = (omega arith, tt)
most_restrictive-IsTightest selected (candidate ∷ rest) (p, (q, ps)) =
    elim (Bool-cases (is_tighter candidate selected)) [
      | inl tighter ↦
          let ih = most_restrictive-IsTightest candidate rest (q, ps) in
          let best = (most_restrictive candidate rest).result in
          let same : most_restrictive selected (candidate ∷ rest)
              ≡ most_restrictive candidate rest =
            rw tighter refl in
          subst (λ (m : AppliedLimit). IsTightest m.result (selected ∷ (candidate ∷ rest)))
            (sym same)
            (
              tighter_trans best.remaining best.limit candidate.result.remaining
                  candidate.result.limit selected.result.remaining selected.result.limit q ih.0
                  (ground arith),
              ih,
            )
      | inr looser ↦
          let ih = most_restrictive-IsTightest selected rest (p, ps) in
          let best = (most_restrictive selected rest).result in
          let same : most_restrictive selected (candidate ∷ rest) ≡ most_restrictive selected rest =
            rw looser refl in
          subst (λ (m : AppliedLimit). IsTightest m.result (selected ∷ (candidate ∷ rest)))
            (sym same)
            (
              ih.0,
              (
                tighter_trans best.remaining best.limit selected.result.remaining
                    selected.result.limit candidate.result.remaining candidate.result.limit p ih.0
                    (ground arith),
                ih.1,
              ),
            )
    ]

pub most_restrictive-allowed :
    (selected : AppliedLimit) (rest : List AppliedLimit)
    → all is_allowed (selected ∷ rest) ≡ true
    → (most_restrictive selected rest).result.allowed ≡ true
unfolding most_restrictive
most_restrictive-allowed selected [] h = ground arith
most_restrictive-allowed selected (candidate ∷ rest) h =
    ground (arith, most_restrictive-allowed candidate rest, most_restrictive-allowed selected rest)

pub decide-allowed :
    (first : AppliedLimit) (rest : List AppliedLimit) (s : RateLimitService)
    → (decide first rest s).0.result.allowed ≡ all is_allowed (first ∷ rest)
unfolding decide
decide-allowed first rest s = elim (find_denied (first ∷ rest)) [
  | inl (none_denied, admitted) ↦
      rw none_denied (most_restrictive-allowed first rest admitted ∙ sym admitted)
  | inr (denied, found, refused, not_all) ↦ rw found (refused ∙ sym not_all)
]

-- Over applied limits that are positive, the decision admits the request exactly if every one of them
-- does, and either one of them does not, or the decision reports the limit with the least share left.
pub decide_lem :
    (first : AppliedLimit) (rest : List AppliedLimit) (s : RateLimitService)
    → ArePositive (first ∷ rest)
    → ((decide first rest s).0.result.allowed ≡ all is_allowed (first ∷ rest))
      × ((all is_allowed (first ∷ rest) ≡ false)
          ⊎ IsTightest (decide first rest s).0.result (first ∷ rest))
unfolding decide
decide_lem first rest s pos = (
  decide-allowed first rest s,
  elim (find_denied (first ∷ rest)) [
    | inl (none_denied, admitted) ↦
        let same : (decide first rest s).0.result ≡ (most_restrictive first rest).result =
          rw none_denied in
        inr (
          subst (λ (r : RateLimitResult). IsTightest r (first ∷ rest)) (sym same)
            (most_restrictive-IsTightest first rest pos))
    | inr (denied, found, refused, not_all) ↦ inl not_all
  ],
)

abbrev pub counted : RateLimitService → RateLimitService
counted s = record s { analytics = record s.analytics { total = s.analytics.total + 1 } }

-- While limiting is on, a request that is neither skipped nor exempt is admitted if all the limits that are
-- applied to it admit it, and otherwise not.
pub check_all_applied :
    (request : RateLimitRequest) (override : Option RateLimitOverride) (now : ℕ)
    (s : RateLimitService)
    → s.config.enabled ≡ true
    → is_exempt request s.config ≡ false
    → let applied = apply_limits request override now (counted s) in
      (check request override false now s).0.result.allowed ≡ all is_allowed (applied.0 ∷ applied.1)
unfolding check limit_request
check_all_applied request override now s on subject =
    let applied = apply_limits request override now (counted s) in
    ground (arith, decide-allowed applied.0 applied.1 applied.2)

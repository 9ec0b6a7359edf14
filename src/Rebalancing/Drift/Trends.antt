-- ===== src/Rebalancing/Drift/Trends.antt =====
-- Which way the trend of an analysis goes.
use atraport_api.Prelude.{
  ℕ, zero, suc, ◌+◌, ◌-◌, ◌*◌, ◌/◌, ◌≤◌, ◌<◌, String, Bool, true, false, none, List, [], ◌∷◌, ◌≡◌,
  refl, sym, ap, arith, map, length, leb, ltb, take, drop, length-drop, sum, All, Bool-cases, inl,
  inr,
}
use atraport_api.Rebalancing.Drift.{AssetAllocation}
use atraport_api.Rebalancing.Drift.Service.{DriftCalculator, DriftHistoryEntry}
use atraport_api.Rebalancing.Drift.Analysis.{
  Trend, Signed, plus, minus, calculate_trend, rounded, project_breach_days, analysis_of,
  analyse_portfolio,
}
use native.Mathlib.Nat.{mul-le-mul_right, div-eq_of_lt}

sum_at_least : (c : ℕ) (xs : List ℕ) → All (λ x. c ≤ x) xs → c * length xs ≤ sum xs
sum_at_least c [] h = omega arith
sum_at_least c (x ∷ xs) (h, hs) = let later = sum_at_least c xs hs in grind arith

sum_of_many : (c n : ℕ) (xs : List ℕ) → length xs ≡ n → All (λ x. c ≤ x) xs → c * n ≤ sum xs
sum_of_many c n xs e h = rw (sym e) (sum_at_least c xs h)

sum_at_most : (c : ℕ) (xs : List ℕ) → All (λ x. x ≤ c) xs → sum xs ≤ c * length xs
sum_at_most c [] h = omega arith
sum_at_most c (x ∷ xs) (h, hs) = let later = sum_at_most c xs hs in grind arith

length-take : (n : ℕ) (xs : List ℕ) → n ≤ length xs → length (take n xs) ≡ n
length-take zero xs h = refl
length-take (suc n) [] h = absurd (omega arith)
length-take (suc n) (x ∷ xs) h = omega (arith, length-take n xs (omega arith))

-- The halves' sums, each times the length of the other half.
products : (c a b u d : ℕ) → c * a ≤ d → u ≤ c * b → u * a ≤ d * b
products c a b u d h k =
    let low : c * a * b ≤ d * b = mul-le-mul_right b h in
    let high : u * a ≤ c * b * a = mul-le-mul_right a k in grind arith

-- Each value of the first half is at least a bound that no value of the second half reaches. The halves are then
-- 1e-4 apart and more, which the program's rounding errors do not close.
abbrev pub HalvesApart : ℕ → List ℕ → Type 0
HalvesApart c values =
    All (λ v. c ≤ v) (take (length values / 2) values)
    × All (λ v. v < c) (drop (length values / 2) values)

at_most : (c : ℕ) (xs : List ℕ) → All (λ x. x < c) xs → All (λ x. x ≤ c) xs
at_most c [] h = tt
at_most c (x ∷ xs) (h, hs) = (omega arith, at_most c xs hs)

not_up :
    (c : ℕ) (values : List ℕ)
    → HalvesApart c values
    → (calculate_trend values).up ≤ (calculate_trend values).down
unfolding calculate_trend
not_up c values (h, k) = elim (Bool-cases (ltb (length values) 4)) [
  | inl few ↦ rw few (omega arith)
  | inr many ↦
      let half = length values / 2 in
      let front : c * half ≤ sum (take half values) =
        sum_of_many c half (take half values) (length-take half values (omega arith)) h in
      let back : sum (drop half values) ≤ c * (length values - half) =
        rw (sym (length-drop half values))
          (sum_at_most c (drop half values) (at_most c (drop half values) k)) in
      rw many (
        products c half (length values - half) (sum (drop half values)) (sum (take half values))
          front back)
]

-- Less than one half is rounded to 0.
half_rounded : (n : ℕ) → (0 + n) / (2 * n) ≡ 0
half_rounded zero = refl
half_rounded (suc n) = div-eq_of_lt (omega arith)

abbrev pub is_up : Signed → Bool
is_up (plus zero) = false
is_up (plus (suc n)) = true
is_up (minus n) = false

rounded_not_up : (t : Trend) → t.up ≤ t.down → is_up (rounded t) ≡ false
unfolding rounded
rounded_not_up t h = elim (Bool-cases (leb t.down t.up)) [
  | inl level ↦
      let none_up : t.up - t.down ≡ 0 = omega arith in
      rw level (rw none_up (ap (λ n. is_up (plus n)) (half_rounded t.over)))
  | inr falling ↦ rw falling refl
]

not_projected :
    (current critical_threshold : ℕ) (t : Trend)
    → t.up ≤ t.down
    → project_breach_days current t critical_threshold ≡ none
unfolding project_breach_days
not_projected current critical_threshold t h = ground arith

abbrev pub drifts_of : List DriftHistoryEntry → List ℕ
drifts_of history = map (λ (h : DriftHistoryEntry). h.overall_drift) history

-- Where each drift of the newer half of the history that an analysis reads is at least a bound that no drift of
-- the older half reaches, so that the portfolio drifts apart, the analysis answers no trend above 0 and projects
-- no breach.
pub growing_not_projected :
    (portfolio_id : String) (assets : List AssetAllocation) (period_days : ℕ) (snapshot_id : String)
    (ids : ℕ → String) (now : ℕ) (s : DriftCalculator) (c : ℕ)
    → let a = (analyse_portfolio portfolio_id assets period_days snapshot_id ids now s).0 in
      HalvesApart c (drifts_of a.history)
      → (is_up a.drift_trend ≡ false) × (a.projected_breach_days ≡ none)
unfolding analyse_portfolio analysis_of
growing_not_projected portfolio_id assets period_days snapshot_id ids now s c apart =
    let flat = not_up c _ apart in (rounded_not_up _ flat, not_projected _ _ _ flat)

-- ===== src/Rebalancing/Drift/Statuses.antt =====
-- How the status of a portfolio follows from those of its assets.
use atraport_api.Prelude.{
  ℕ, ◌*◌, ◌≤◌, String, Option, none, some, List, [], ◌∷◌, ◌≡◌, arith, map, sum, All,
}
use atraport_api.Rebalancing.Drift.{
  Severity, warning, critical, AssetAllocation, AssetDrift, DriftConfig, level, to_fixed, distance,
  asset_drift, greatest, warning_or_default, critical_or_default, snapshot,
}

-- How bad a status is.
abbrev pub rank : Option Severity → ℕ
rank none = 0
rank (some warning) = 1
rank (some critical) = 2

-- Rounding does not bring a drift below a whole threshold that it reaches.
rank-level-le :
    (w c d g : ℕ)
    → to_fixed d ≤ g
    → rank (level (10000 * w) (10000 * c) d) ≤ rank (level (10000 * w) (10000 * c) (g * 10000))
unfolding level
rank-level-le w c d g h = ground arith

none_worse :
    (w c total g : ℕ) (assets : List AssetAllocation)
    → let drifts = map (asset_drift (10000 * w) (10000 * c) total) assets in
      greatest (map (λ (a : AssetDrift). a.absolute_drift) drifts) ≤ g
      → All
          (λ (a : AssetDrift). rank a.status ≤ rank (level (10000 * w) (10000 * c) (g * 10000)))
          drifts
unfolding asset_drift greatest
none_worse w c total g [] h = tt
none_worse w c total g (a ∷ assets) h =
    let drift = distance a.current_weight a.target_weight in
    (rank-level-le w c drift g (omega arith), none_worse w c total g assets (omega arith))

-- Where both thresholds are whole numbers of units of 1e-4, to which the drifts are rounded, no asset of a
-- snapshot has a worse status than the portfolio.
pub snapshot_not_milder :
    (config : Option DriftConfig) (w c : ℕ) (portfolio_id : String) (assets : List AssetAllocation)
    (now : ℕ)
    → warning_or_default config ≡ 10000 * w
    → critical_or_default config ≡ 10000 * c
    → let s = snapshot config portfolio_id assets now in
      All (λ (a : AssetDrift). rank a.status ≤ rank s.status) s.assets
unfolding snapshot
snapshot_not_milder config w c portfolio_id assets now low high = rw low (
    rw high (
      none_worse w c (sum (map (λ (a : AssetAllocation). a.current_value) assets)) _ assets
        (omega arith)))

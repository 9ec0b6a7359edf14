-- ===== src/Rebalancing/Drift.antt =====
-- src/rebalancing/drift-calculator.service.ts and the types of dto/drift.dto.ts: the snapshot of a portfolio.
-- Weights and thresholds are in units of 1e-8; what the program rounds to four decimals is in units of 1e-4.
-- A status of `none` is 'on-target' for an asset and 'healthy' for a portfolio.
pub mod Service
pub mod Analysis
pub mod Statuses
pub mod Duplicates
pub mod History
pub mod Trends
use atraport_api.Prelude.{
  ℕ, ◌+◌, ◌-◌, ◌*◌, max, String, Bool, true, false, Option, none, some, List, [], ◌∷◌, map, ltb,
  leb, length, sum, round_div, if◌then◌else◌,
}

pub data Severity : Type 0 where
  warning critical : Severity

pub record AssetAllocation : Type 0 where
  pub symbol : String
  pub current_weight : ℕ
  pub target_weight : ℕ
  pub current_value : ℕ

pub record AssetDrift : Type 0 where
  pub symbol : String
  pub current_weight : ℕ
  pub target_weight : ℕ
  pub absolute_drift : ℕ
  pub relative_drift : ℕ
  pub drift_value : ℕ
  pub status : Option Severity

pub record DriftStatus : Type 0 where
  pub portfolio_id : String
  pub timestamp : ℕ
  pub overall_drift : ℕ
  pub max_drift : ℕ
  pub status : Option Severity
  pub assets : List AssetDrift
  pub thresholds : Option (ℕ × ℕ)
  pub rebalancing_recommended : Bool

pub record DriftConfig : Type 0 where
  pub portfolio_id : String
  pub warning_threshold : ℕ
  pub critical_threshold : ℕ
  pub webhook_url : Option String
  pub enabled : Bool
  pub created_at : ℕ
  pub updated_at : ℕ

abbrev pub warning_or_default : Option DriftConfig → ℕ
warning_or_default none = 5000000
warning_or_default (some config) = config.warning_threshold

abbrev pub critical_or_default : Option DriftConfig → ℕ
critical_or_default none = 10000000
critical_or_default (some config) = config.critical_threshold

-- `Number(x.toFixed(4))`
abbrev pub to_fixed : ℕ → ℕ
to_fixed x = round_div x 10000

abbrev pub distance : ℕ → ℕ → ℕ
distance a b = (a - b) + (b - a)

unfoldable pub level : ℕ → ℕ → ℕ → Option Severity
level warning_threshold critical_threshold drift =
    if leb critical_threshold drift
    then some critical
    else if leb warning_threshold drift
    then some warning
    else none

unfoldable pub relative : ℕ → ℕ → ℕ
relative drift target = if ltb 0 target then round_div (drift * 10000) target else 0

unfoldable pub asset_drift : ℕ → ℕ → ℕ → AssetAllocation → AssetDrift
asset_drift warning_threshold critical_threshold total_value asset =
    let drift = distance asset.current_weight asset.target_weight in
    record {
      symbol = asset.symbol;
      current_weight = asset.current_weight;
      target_weight = asset.target_weight;
      absolute_drift = to_fixed drift;
      relative_drift = relative drift asset.target_weight;
      drift_value = to_fixed (drift * total_value);
      status = level warning_threshold critical_threshold drift;
    }

-- `Math.max(...)` of what is not below 0, and 0 of nothing.
unfoldable pub greatest : List ℕ → ℕ
greatest [] = 0
greatest (x ∷ xs) = max x (greatest xs)

unfoldable pub mean : List ℕ → ℕ
mean xs = if ltb 0 (length xs) then round_div (sum xs) (length xs) else 0

abbrev pub is_breach : Option Severity → Bool
is_breach none = false
is_breach (some severity) = true

abbrev pub thresholds_of : Option DriftConfig → Option (ℕ × ℕ)
thresholds_of none = none
thresholds_of (some config) = some (config.warning_threshold, config.critical_threshold)

-- The greatest drift is of the rounded ones, and is compared with the thresholds as they are.
abbrev pub status_of_all : Option DriftConfig → List ℕ → Option Severity
status_of_all config drifts =
    level (warning_or_default config) (critical_or_default config) (greatest drifts * 10000)

unfoldable pub snapshot : Option DriftConfig → String → List AssetAllocation → ℕ → DriftStatus
snapshot config portfolio_id assets now =
    let total_value = sum (map (λ (a : AssetAllocation). a.current_value) assets) in
    let assess = asset_drift (warning_or_default config) (critical_or_default config) total_value in
    let asset_drifts = map assess assets in
    let drifts = map (λ (a : AssetDrift). a.absolute_drift) asset_drifts in
    let status = status_of_all config drifts in
    record {
      portfolio_id = portfolio_id;
      timestamp = now;
      overall_drift = mean drifts;
      max_drift = greatest drifts;
      status = status;
      assets = asset_drifts;
      thresholds = thresholds_of config;
      rebalancing_recommended = is_breach status;
    }

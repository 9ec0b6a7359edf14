-- ===== src/Rebalancing/Drift/Analysis.antt =====
-- `analysePortfolio` of src/rebalancing/drift-calculator.service.ts. A trend is a fraction of whole numbers in
-- units of 1e-4, whose numerator is what goes up less what goes down; a recommendation's text is a constructor.
-- The program sums and divides in floating point, whose rounding errors are left out: where the two means are
-- equal, it may take a trend of their size for one up or down.
use atraport_api.Prelude.{
  ℕ, ◌+◌, ◌-◌, ◌*◌, ◌/◌, max, String, Option, none, some, List, [], ◌∷◌, map, ltb, leb, length,
  take, drop, sum, round_div, if◌then◌else◌,
}
use atraport_api.Prelude.JsMap
use atraport_api.Rebalancing.Drift.{
  Severity, warning, critical, AssetAllocation, AssetDrift, DriftStatus, critical_or_default,
  greatest,
}
use atraport_api.Rebalancing.Drift.Service.{
  DriftCalculator, DriftHistoryEntry, Dispatched, calculate_drift, get_history,
}

pub record Trend : Type 0 where
  pub up : ℕ
  pub down : ℕ
  pub over : ℕ

-- A number of either sign; `minus 0` is the -0 that rounding a small negative number leaves.
pub data Signed : Type 0 where
  plus : ℕ → Signed
  minus : ℕ → Signed

pub data Recommendation : Type 0 where
  immediate : Recommendation
  soon : ℕ → Recommendation
  approaching drifting acceptable : Recommendation

pub record DriftAnalysis : Type 0 where
  pub portfolio_id : String
  pub analysis_timestamp : ℕ
  pub analysis_period_days : ℕ
  pub current_status : DriftStatus
  pub average_drift : ℕ
  pub peak_drift : ℕ
  pub drift_trend : Signed
  pub most_drifted_asset : Option String
  pub projected_breach_days : Option ℕ
  pub recommendation : Recommendation
  pub history : List DriftHistoryEntry

abbrev pub no_trend : Trend
no_trend = record { up = 0; down = 0; over = 1 }

-- The mean of the second half less the mean of the first, exactly.
unfoldable pub calculate_trend : List ℕ → Trend
calculate_trend values =
    let half = length values / 2 in
    let other = length values - half in
    if ltb (length values) 4 then no_trend else record {
      up = sum (drop half values) * half;
      down = sum (take half values) * other;
      over = half * other;
    }

unfoldable pub rounded : Trend → Signed
rounded t =
    if leb t.down t.up
    then plus (round_div (t.up - t.down) t.over)
    else minus (round_div (t.down - t.up) t.over)

abbrev pub ceil_div : ℕ → ℕ → ℕ
ceil_div a b = (a + (b - 1)) / b

-- The current drift is in units of 1e-4, the threshold in units of 1e-8.
unfoldable pub project_breach_days : ℕ → Trend → ℕ → Option ℕ
project_breach_days current trend critical_threshold =
    if leb critical_threshold (current * 10000)
    then none
    else if leb trend.up trend.down
    then none
    else (let remaining = critical_threshold - current * 10000 in
        let snapshots = ceil_div (remaining * trend.over) ((trend.up - trend.down) * 10000) in
        some (max 1 (round_div snapshots 24)))

abbrev pub recommend_soon : Option ℕ → Recommendation
recommend_soon none = approaching
recommend_soon (some days) = soon days

-- A trend above 0.005 is one above 50 units.
unfoldable pub build_recommendation : Option Severity → Trend → Option ℕ → Recommendation
build_recommendation (some critical) trend days = immediate
build_recommendation (some warning) trend days = recommend_soon days
build_recommendation none trend days =
    if ltb (50 * trend.over + trend.down) trend.up then drifting else acceptable

-- The first of the assets that have the greatest drift.
unfoldable pub more_drifted : AssetDrift → List AssetDrift → AssetDrift
more_drifted prev [] = prev
more_drifted prev (curr ∷ rest) =
    more_drifted (if ltb prev.absolute_drift curr.absolute_drift then curr else prev) rest

abbrev pub most_drifted : List AssetDrift → Option String
most_drifted [] = none
most_drifted (asset ∷ rest) = let most = more_drifted asset rest in some most.symbol

abbrev pub average_or : ℕ → List ℕ → ℕ
average_or current [] = current
average_or current (d ∷ ds) = round_div (sum (d ∷ ds)) (length (d ∷ ds))

abbrev pub peak_or : ℕ → List ℕ → ℕ
peak_or current [] = current
peak_or current (d ∷ ds) = greatest (d ∷ ds)

-- The analysis of a snapshot and the history that was read, newest first.
unfoldable pub analysis_of :
    String → ℕ → ℕ → ℕ → DriftStatus → List DriftHistoryEntry → DriftAnalysis
analysis_of portfolio_id period_days now critical_threshold taken history =
    let drifts = map (λ (h : DriftHistoryEntry). h.overall_drift) history in
    let trend = calculate_trend drifts in
    let days = project_breach_days taken.overall_drift trend critical_threshold in
    record {
      portfolio_id = portfolio_id;
      analysis_timestamp = now;
      analysis_period_days = period_days;
      current_status = taken;
      average_drift = average_or taken.overall_drift drifts;
      peak_drift = peak_or taken.max_drift drifts;
      drift_trend = rounded trend;
      most_drifted_asset = most_drifted taken.assets;
      projected_breach_days = days;
      recommendation = build_recommendation taken.status trend days;
      history = history;
    }

unfoldable pub analyse_portfolio :
    String
    → List AssetAllocation
    → ℕ
    → String
    → (ℕ → String)
    → ℕ
    → DriftCalculator
    → DriftAnalysis × List Dispatched × DriftCalculator
analyse_portfolio portfolio_id assets period_days snapshot_id ids now s =
    let (taken, sent, s') = calculate_drift portfolio_id assets snapshot_id ids now s in
    let history = get_history portfolio_id (period_days * 24) s' in
    let critical_threshold = critical_or_default (JsMap.get portfolio_id s'.configs) in
    (analysis_of portfolio_id period_days now critical_threshold taken history, sent, s')

-- ===== src/Tests/DriftRuns.antt =====
-- Runs of the drift of a portfolio at concrete inputs.
use atraport_api.Prelude.{
  ℕ, zero, suc, ◌+◌, ◌-◌, String, false, none, List, [], ◌∷◌, ◌≡◌, arith, take,
}
use atraport_api.Prelude.JsMap
use atraport_api.Rebalancing.Drift.{AssetAllocation, snapshot, asset_drift, mean}
use atraport_api.Rebalancing.Drift.Service.{
  new_calculator, get_history, reverse, slice_last, calculate_drift, persist_snapshot,
}
use atraport_api.Rebalancing.Drift.Analysis.{analyse_portfolio, analysis_of}
use atraport_api.Rebalancing.Drift.Duplicates.{
  Operation, calculates, acknowledges, run, NoTwins, run-NoTwins,
}
use atraport_api.Rebalancing.Drift.History.{shown, entries_of, get_history_lem}
use atraport_api.Rebalancing.Drift.Trends.{HalvesApart, drifts_of, is_up, growing_not_projected}

-- Two assets, of which each has the given drift from a half of the portfolio.
abbrev split_by : ℕ → List AssetAllocation
split_by d =
    record {
      symbol = "XLM";
      current_weight = 50000000 + d;
      target_weight = 50000000;
      current_value = 600;
    }
    ∷ record {
      symbol = "BTC";
      current_weight = 50000000 - d;
      target_weight = 50000000;
      current_value = 400;
    }
    ∷ []

abbrev ids : ℕ → String
ids zero = "a"
ids (suc n) = "b"

-- Four snapshots, each further from the target than the one before.
abbrev growing : List (ℕ × Operation)
growing =
    (1, calculates "p" (split_by 1000000) "s1" ids)
    ∷ (2, calculates "p" (split_by 2000000) "s2" ids)
    ∷ (3, calculates "p" (split_by 3000000) "s3" ids)
    ∷ []

-- An alert, its acknowledgement, and the alert anew.
abbrev acknowledged_once : List (ℕ × Operation)
acknowledged_once =
    (1, calculates "p" (split_by 6000000) "s1" ids)
    ∷ (2, acknowledges "a" none)
    ∷ (3, calculates "p" (split_by 7000000) "s2" (λ n. "c"))
    ∷ []

run-NoTwins_example : NoTwins (run acknowledged_once new_calculator).alerts
run-NoTwins_example = run-NoTwins acknowledged_once

get_history_lem_example :
    get_history "p" 2 (run growing new_calculator)
    ≡ take (shown 2) (entries_of "p" growing new_calculator)
get_history_lem_example = get_history_lem "p" 2 growing

growing_apart : HalvesApart 250 (
    drifts_of
      (analyse_portfolio "p"
        (split_by 4000000)
        30
        "s4"
        ids
        4
        (run growing new_calculator)).0.history)
unfolding analyse_portfolio analysis_of get_history reverse slice_last JsMap.get calculate_drift
    persist_snapshot JsMap.set snapshot asset_drift mean
growing_apart = ((omega arith, (omega arith, tt)), (omega arith, (omega arith, tt)))

growing_not_projected_example :
    let a =
      (analyse_portfolio "p" (split_by 4000000) 30 "s4" ids 4 (run growing new_calculator)).0 in
    (is_up a.drift_trend ≡ false) × (a.projected_breach_days ≡ none)
growing_not_projected_example =
    growing_not_projected "p" (split_by 4000000) 30 "s4" ids 4 (run growing new_calculator) 250
      growing_apart

-- ===== src/Tests/PortfolioRuns.antt =====
-- src/staking/portfolio.service.ts: runs of the positions of one staker.
use atraport_api.Prelude.{ℕ, ◌+◌, List, [], ◌∷◌, ◌≡◌}
use atraport_api.Staking.Portfolio.{new_service}
use atraport_api.Staking.Portfolio.Coherence.{Operation, stakes, withdraws, views, yields, run}
use atraport_api.Staking.Portfolio.Conserving.{held, all_in, all_out, run-conserved}

-- A stake, a look at it, a withdrawal too early, and one after the term.
abbrev operations : List (ℕ × Operation)
operations =
    (0, stakes "ann" (record { asset_id = "ASTR"; amount = 500; term_days = 1 } ∷ []))
    ∷ (1, views "ann")
    ∷ (2, withdraws "ann" (record { asset_id = "ASTR"; amount = 200 } ∷ []))
    ∷ (86400000, withdraws "ann" (record { asset_id = "ASTR"; amount = 200 } ∷ []))
    ∷ (86400001, yields "ann")
    ∷ []

run-conserved_example :
    held "ASTR" "ann" (run operations new_service) + all_out "ASTR" "ann" operations new_service
    ≡ all_in "ASTR" "ann" operations new_service
run-conserved_example = run-conserved "ASTR" "ann" operations

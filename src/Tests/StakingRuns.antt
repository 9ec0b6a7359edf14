-- ===== src/Tests/StakingRuns.antt =====
-- src/staking: runs of emergency unstakes.
use atraport_api.Prelude.{some, [], ◌∷◌, ◌≡◌, ◌⊎◌}
use atraport_api.Prelude.JsMap
use atraport_api.Prelude.JsMap.{JsMap}
use atraport_api.Staking.{
  StakingPosition, InitiateEmergencyUnstake, Staking, UnstakeError, refused,
  initiate_emergency_unstake,
}
use atraport_api.Staking.Limit.{IsSpaced, stake, unstake, run, run-IsSpaced}
use atraport_api.Staking.Initiating.{IsWithdrawn, Reason, initiate_emergency_unstake_lem}

abbrev position : StakingPosition
position = record { id = "p"; staker_id = "u"; amount = 100; unlock_date = 20000000000 }

abbrev request : InitiateEmergencyUnstake
request = record { staker_id = "u"; staking_position_id = "p"; amount = 40 }

abbrev nothing_staked : Staking
nothing_staked = record { staking_positions = []; unstakes = [] }

abbrev staked : Staking
staked = record { staking_positions = ("p", position) ∷ []; unstakes = [] }

-- The second one comes too soon, the third does not.
run-IsSpaced_example :
    IsSpaced
      (run
        (stake position
          ∷ (unstake request "a" 5
              ∷ (unstake request "b" 900 ∷ (unstake request "c" 604800005 ∷ []))))
        nothing_staked).unstakes
run-IsSpaced_example =
    run-IsSpaced
      (stake position
        ∷ (unstake request "a" 5
            ∷ (unstake request "b" 900 ∷ (unstake request "c" 604800005 ∷ []))))
      nothing_staked tt

initiate_emergency_unstake_lem_example :
    ((p : StakingPosition) × (JsMap.get "p" staked.staking_positions ≡ some p)
      × IsWithdrawn request "a" 5 staked p (initiate_emergency_unstake request "a" 5 staked))
    ⊎ ((error : UnstakeError) × Reason request "a" 5 staked error
        × (initiate_emergency_unstake request "a" 5 staked ≡ (refused error, staked)))
initiate_emergency_unstake_lem_example = initiate_emergency_unstake_lem request "a" 5 staked

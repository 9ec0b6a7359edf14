-- ===== src/Staking/Limit.antt =====
-- How often a staker leaves early.
use atraport_api.Prelude.{
  ℕ, ◌+◌, ◌≤◌, String, true, false, Option, none, some, List, [], ◌∷◌, ◌≡◌, arith, ltb, ◌⊎◌, inl,
  inr, All, Bool-cases,
}
use text.Mathlib.Text.{◌==◌}
use atraport_api.Prelude.JsMap
use atraport_api.Prelude.JsMap.{JsMap}
use atraport_api.Staking.{
  EmergencyUnstake, StakingPosition, InitiateEmergencyUnstake, Staking, rate_limit_period,
  check_rate_limit, add_staking_position, unstake_of, withdraw_saved, initiate_at,
  initiate_emergency_unstake,
}

-- The other unstake is of another staker, or was made seven days before at least.
abbrev IsApart : EmergencyUnstake → EmergencyUnstake → Type 0
IsApart u other =
    ((other.staker_id == u.staker_id) ≡ false)
    ⊎ (other.created_at + rate_limit_period ≤ u.created_at)

-- The newest first.
abbrev pub IsSpaced : List EmergencyUnstake → Type 0
IsSpaced [] = Unit
IsSpaced (u ∷ us) = All (IsApart u) us × IsSpaced us

limited-Apart :
    (dto : InitiateEmergencyUnstake) (position : StakingPosition) (id : String) (now : ℕ)
    (us : List EmergencyUnstake)
    → check_rate_limit dto.staker_id now us ≡ true
    → All (IsApart (unstake_of dto position id now)) us
unfolding check_rate_limit unstake_of
limited-Apart dto position id now [] h = tt
limited-Apart dto position id now (u ∷ us) h = elim (Bool-cases (u.staker_id == dto.staker_id)) [
  | inr other ↦ (inl other, limited-Apart dto position id now us (ground arith))
  | inl same ↦ (inr (ground arith), limited-Apart dto position id now us (ground arith))
]

initiate_at-IsSpaced :
    (dto : InitiateEmergencyUnstake) (o : Option StakingPosition) (id : String) (now : ℕ)
    (s : Staking)
    → check_rate_limit dto.staker_id now s.unstakes ≡ true
    → IsSpaced s.unstakes
    → IsSpaced (initiate_at dto o id now s).1.unstakes
unfolding initiate_at withdraw_saved
initiate_at-IsSpaced dto none id now s may h = h
initiate_at-IsSpaced dto (some position) id now s may h =
    elim (Bool-cases (position.staker_id == dto.staker_id)) [
      | inr other ↦ rw other h
      | inl own ↦ elim (Bool-cases (ltb position.amount dto.amount)) [
        | inl more ↦ rw (own, more) h
        | inr enough ↦ rw (own, enough) (limited-Apart dto position id now s.unstakes may, h)
      ]
    ]

initiate-IsSpaced :
    (dto : InitiateEmergencyUnstake) (id : String) (now : ℕ) (s : Staking)
    → IsSpaced s.unstakes
    → IsSpaced (initiate_emergency_unstake dto id now s).1.unstakes
unfolding initiate_emergency_unstake
initiate-IsSpaced dto id now s h =
    elim (Bool-cases (check_rate_limit dto.staker_id now s.unstakes)) [
      | inr early ↦ rw early h
      | inl may ↦ rw may (
          initiate_at-IsSpaced dto (JsMap.get dto.staking_position_id s.staking_positions) id now s
            may h)
    ]

-- A call on the two services, with the identifier and the time that an unstake takes.
pub data Operation : Type 0 where
  stake : StakingPosition → Operation
  unstake : InitiateEmergencyUnstake → String → ℕ → Operation

abbrev step : Operation → Staking → Staking
step (stake position) s = add_staking_position position s
step (unstake dto id now) s = (initiate_emergency_unstake dto id now s).1

abbrev pub run : List Operation → Staking → Staking
run [] s = s
run (operation ∷ rest) s = run rest (step operation s)

step-IsSpaced :
    (operation : Operation) (s : Staking)
    → IsSpaced s.unstakes
    → IsSpaced (step operation s).unstakes
unfolding add_staking_position
step-IsSpaced (stake position) s h = h
step-IsSpaced (unstake dto id now) s h = initiate-IsSpaced dto id now s h

-- Whatever positions are added and whatever emergency unstakes are asked for, at whatever times, any two
-- that are recorded for one staker stay seven days apart.
pub run-IsSpaced :
    (operations : List Operation) (s : Staking)
    → IsSpaced s.unstakes
    → IsSpaced (run operations s).unstakes
run-IsSpaced [] s h = h
run-IsSpaced (operation ∷ rest) s h =
    run-IsSpaced rest (step operation s) (step-IsSpaced operation s h)

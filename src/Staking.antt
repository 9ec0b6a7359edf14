-- ===== src/Staking.antt =====
-- src/staking/emergency-unstake.service.ts with src/contracts/contracts.service.ts: what is staked, and
-- leaving early. Amounts are whole numbers of the smallest unit, times are in milliseconds. A penalty rate is a
-- number of parts of `rate_unit` and a penalty is in the same parts, which makes them exact where the
-- program rounds in floating point. The table of unstakes is a list, the newest first, whose rows are
-- created at the time of the call.
pub mod Limit
pub mod Initiating
pub mod Portfolio
use atraport_api.Prelude.{
  ℕ, ◌+◌, ◌-◌, ◌*◌, String, Bool, true, false, not, ◌&&◌, Option, none, some, List, [], ◌∷◌, min,
  ltb, leb, any, if◌then◌else◌,
}
use text.Mathlib.Text.{◌==◌}
use atraport_api.Prelude.JsMap
use atraport_api.Prelude.JsMap.{JsMap}

pub record StakingPosition : Type 0 where
  pub id : String
  pub staker_id : String
  pub amount : ℕ
  pub unlock_date : ℕ

pub data UnstakeStatus : Type 0 where
  pending processed failed : UnstakeStatus

-- The text of the entry's details is not modelled.
pub record AuditEntry : Type 0 where
  pub timestamp : ℕ
  pub action : String

pub record EmergencyUnstake : Type 0 where
  pub id : String
  pub staker_id : String
  pub amount : ℕ
  pub penalty : ℕ
  pub penalty_rate : ℕ
  pub original_unlock_date : ℕ
  pub status : UnstakeStatus
  pub created_at : ℕ
  pub processed_at : Option ℕ
  pub audit_log : List AuditEntry

pub record InitiateEmergencyUnstake : Type 0 where
  pub staker_id : String
  pub staking_position_id : String
  pub amount : ℕ

pub record Staking : Type 0 where
  pub staking_positions : JsMap StakingPosition
  pub unstakes : List EmergencyUnstake

-- `wrong_owner` and `exceeds_balance` are `BadRequestException`s, as `too_soon` is.
pub data UnstakeError : Type 0 where
  too_soon position_not_found wrong_owner exceeds_balance insufficient_balance : UnstakeError

pub record Initiated : Type 0 where
  pub transaction_id : String
  pub status : UnstakeStatus
  pub rate : ℕ
  pub penalty : ℕ
  pub net_amount : ℕ

pub data UnstakeResult : Type 0 where
  refused : UnstakeError → UnstakeResult
  initiated : Initiated → UnstakeResult

-- Seven days and 180 days, of 24 hours: `setDate` counts the seven by the calendar, whose days are as long where the
-- clock keeps UTC.
abbrev pub rate_limit_period : ℕ
rate_limit_period = 604800000

abbrev pub lockup_period : ℕ
lockup_period = 15552000000

-- 5% of this is `lockup_period`, and 25% is five of them.
abbrev pub rate_unit : ℕ
rate_unit = 20 * lockup_period

unfoldable pub calculate_penalty : ℕ → ℕ → ℕ
calculate_penalty now unlock =
    if leb unlock now then 0 else min (lockup_period + 4 * (unlock - now)) (5 * lockup_period)

-- There is no row of the staker created after the time seven days ago.
unfoldable pub check_rate_limit : String → ℕ → List EmergencyUnstake → Bool
check_rate_limit staker_id now unstakes = not (
    any
      (λ (u : EmergencyUnstake).
        u.staker_id == staker_id && ltb now (u.created_at + rate_limit_period))
      unstakes)

unfoldable pub add_staking_position : StakingPosition → Staking → Staking
add_staking_position position s = record s {
  staking_positions = JsMap.set position.id position s.staking_positions;
}

-- The error, if there is one.
unfoldable pub withdraw :
    String
    → ℕ
    → Option StakingPosition
    → JsMap StakingPosition
    → Option UnstakeError × JsMap StakingPosition
withdraw id amount none positions = (some position_not_found, positions)
withdraw id amount (some p) positions =
    if ltb p.amount amount
    then (some insufficient_balance, positions)
    else (none, JsMap.set id (record p { amount = p.amount - amount }) positions)

unfoldable pub process_emergency_withdrawal :
    String → ℕ → JsMap StakingPosition → Option UnstakeError × JsMap StakingPosition
process_emergency_withdrawal id amount positions =
    withdraw id amount (JsMap.get id positions) positions

unfoldable pub unstake_of :
    InitiateEmergencyUnstake → StakingPosition → String → ℕ → EmergencyUnstake
unstake_of dto position id now = record {
  id = id;
  staker_id = dto.staker_id;
  amount = dto.amount;
  penalty = dto.amount * calculate_penalty now position.unlock_date;
  penalty_rate = calculate_penalty now position.unlock_date;
  original_unlock_date = position.unlock_date;
  status = pending;
  created_at = now;
  processed_at = none;
  audit_log = record { timestamp = now; action = "INITIATED" } ∷ [];
}

abbrev pub answer_of : EmergencyUnstake → Option UnstakeError → UnstakeResult
answer_of u (some error) = refused error
answer_of u none = initiated (record {
  transaction_id = u.id;
  status = u.status;
  rate = u.penalty_rate;
  penalty = u.penalty;
  net_amount = u.amount * rate_unit - u.penalty;
})

-- The row is saved before the position is reduced.
unfoldable pub withdraw_saved :
    InitiateEmergencyUnstake → EmergencyUnstake → Staking → UnstakeResult × Staking
withdraw_saved dto u s =
    let (error, positions) =
      process_emergency_withdrawal dto.staking_position_id dto.amount s.staking_positions in
    (answer_of u error, record { staking_positions = positions; unstakes = u ∷ s.unstakes })

unfoldable pub initiate_at :
    InitiateEmergencyUnstake
    → Option StakingPosition
    → String
    → ℕ
    → Staking
    → UnstakeResult × Staking
initiate_at dto none id now s = (refused position_not_found, s)
initiate_at dto (some position) id now s =
    if not (position.staker_id == dto.staker_id)
    then (refused wrong_owner, s)
    else if ltb position.amount dto.amount
    then (refused exceeds_balance, s)
    else withdraw_saved dto (unstake_of dto position id now) s

-- The row's identifier is an argument.
unfoldable pub initiate_emergency_unstake :
    InitiateEmergencyUnstake → String → ℕ → Staking → UnstakeResult × Staking
initiate_emergency_unstake dto id now s =
    if not (check_rate_limit dto.staker_id now s.unstakes)
    then (refused too_soon, s)
    else initiate_at dto (JsMap.get dto.staking_position_id s.staking_positions) id now s

-- ===== src/Staking/Initiating.antt =====
-- What an emergency unstake does on each of its branches.
use atraport_api.Prelude.{
  ℕ, ◌+◌, ◌-◌, ◌*◌, ◌≤◌, ◌<◌, String, false, Option, none, some, ◌∷◌, ◌≡◌, refl, arith, ltb, ◌⊎◌,
  inl, inr, Bool-cases, eq_iff, eq_refl,
}
use native.Mathlib.Nat.{mul-le-mul_left, mul_left_comm}
use text.Mathlib.Text.{◌==◌}
use atraport_api.Prelude.JsMap
use atraport_api.Prelude.JsMap.{JsMap, get-set}
use atraport_api.Staking.{
  StakingPosition, InitiateEmergencyUnstake, Staking, UnstakeError, Initiated, UnstakeResult,
  refused, initiated, pending, position_not_found, too_soon, wrong_owner, exceeds_balance,
  insufficient_balance, rate_unit, calculate_penalty, check_rate_limit, withdraw,
  process_emergency_withdrawal, unstake_of, withdraw_saved, initiate_at, initiate_emergency_unstake,
}

-- The penalty of an unlocked position is nothing, that of a locked one is from 5% to 25%, and waiting does
-- not raise it.
pub calculate_penalty_lem :
    (now later unlock : ℕ)
    → now ≤ later
    → (((unlock ≤ now) × (calculate_penalty now unlock ≡ 0))
        ⊎ ((rate_unit ≤ 20 * calculate_penalty now unlock)
            × (4 * calculate_penalty now unlock ≤ rate_unit)))
      × (calculate_penalty later unlock ≤ calculate_penalty now unlock)
unfolding calculate_penalty
calculate_penalty_lem now later unlock h = (ground arith, ground arith)

penalty_of_amount :
    (amount rate : ℕ)
    → 4 * rate ≤ rate_unit
    → ((amount * rate_unit - amount * rate) + amount * rate ≡ amount * rate_unit)
      × (4 * (amount * rate) ≤ amount * rate_unit)
penalty_of_amount amount rate h =
    let four : amount * (4 * rate) ≤ amount * rate_unit = mul-le-mul_left amount h in
    let moved : amount * (4 * rate) ≡ 4 * (amount * rate) = mul_left_comm amount 4 rate in
    (omega (arith, four, moved), omega (arith, four, moved))

rate_le : (now unlock : ℕ) → 4 * calculate_penalty now unlock ≤ rate_unit
rate_le now unlock = elim ((calculate_penalty_lem now now unlock (omega arith)).0) [
  | inl (past, free) ↦ omega (arith, free)
  | inr (least, most) ↦ most
]

module _ (dto : InitiateEmergencyUnstake) (id : String) (now : ℕ) (s : Staking) where
  -- The position is the staker's and holds the amount, which it is reduced by; the answer splits the
  -- amount into the penalty, a quarter at most, and the rest; the unstake is recorded.
  abbrev pub IsWithdrawn : StakingPosition → UnstakeResult × Staking → Type 0
  IsWithdrawn p (result, after) =
      (p.staker_id ≡ dto.staker_id)
      × (dto.amount ≤ p.amount)
      × ((answer : Initiated) × (result ≡ initiated answer)
          × (answer.net_amount + answer.penalty ≡ dto.amount * rate_unit)
          × (4 * answer.penalty ≤ dto.amount * rate_unit))
      × (JsMap.get dto.staking_position_id after.staking_positions
          ≡ some (record p { amount = p.amount - dto.amount }))
      × (after.unstakes ≡ unstake_of dto p id now ∷ s.unstakes)

  withdraw_saved-IsWithdrawn :
      (p : StakingPosition)
      → JsMap.get dto.staking_position_id s.staking_positions ≡ some p
      → p.staker_id ≡ dto.staker_id
      → ltb p.amount dto.amount ≡ false
      → IsWithdrawn p (withdraw_saved dto (unstake_of dto p id now) s)
  unfolding withdraw_saved process_emergency_withdrawal withdraw unstake_of
  withdraw_saved-IsWithdrawn p there own enough =
      let rate = calculate_penalty now p.unlock_date in
      let (sum, most) = penalty_of_amount dto.amount rate (rate_le now p.unlock_date) in
      rw (there, enough)
        (
          own,
          ground arith,
          (
            record {
              transaction_id = id;
              status = pending;
              rate = rate;
              penalty = dto.amount * rate;
              net_amount = dto.amount * rate_unit - dto.amount * rate;
            },
            refl,
            sum,
            most,
          ),
          rw (get-set, eq_refl dto.staking_position_id) refl,
          refl,
        )

  -- What each refusal tells.
  abbrev pub Reason : UnstakeError → Type 0
  Reason too_soon = check_rate_limit dto.staker_id now s.unstakes ≡ false
  Reason position_not_found = JsMap.get dto.staking_position_id s.staking_positions ≡ none
  Reason wrong_owner =
      (p : StakingPosition) × (JsMap.get dto.staking_position_id s.staking_positions ≡ some p)
      × ((p.staker_id == dto.staker_id) ≡ false)
  Reason exceeds_balance =
      (p : StakingPosition) × (JsMap.get dto.staking_position_id s.staking_positions ≡ some p)
      × (p.amount < dto.amount)
  Reason insufficient_balance = ⊥

  Tried : Option StakingPosition → UnstakeResult × Staking → Type 0
  Tried o r =
      ((p : StakingPosition) × (o ≡ some p) × IsWithdrawn p r)
      ⊎ ((error : UnstakeError) × Reason error × (r ≡ (refused error, s)))

  initiate_at-Tried :
      (o : Option StakingPosition)
      → JsMap.get dto.staking_position_id s.staking_positions ≡ o
      → Tried o (initiate_at dto o id now s)
  unfolding Tried initiate_at
  initiate_at-Tried none e = inr (position_not_found, e, refl)
  initiate_at-Tried (some p) e = elim (Bool-cases (p.staker_id == dto.staker_id)) [
    | inr other ↦ inr (wrong_owner, (p, e, other), rw other refl)
    | inl own ↦ elim (Bool-cases (ltb p.amount dto.amount)) [
      | inl more ↦ inr (exceeds_balance, (p, e, ground arith), rw (own, more) refl)
      | inr enough ↦ inl (
        p,
        refl,
        rw (own, enough)
            (withdraw_saved-IsWithdrawn p e ((eq_iff p.staker_id dto.staker_id).0 own) enough),
      )
    ]
  ]

  -- An emergency unstake either withdraws the amount from a position of the staker that holds it, answers
  -- with a penalty of a quarter of the amount at most and the rest, and is recorded, or it is refused and
  -- nothing changes. It is refused only for an unstake of the staker in the last seven days, for a position
  -- that is missing or another staker's, or for an amount beyond the position's.
  pub initiate_emergency_unstake_lem :
      ((p : StakingPosition) × (JsMap.get dto.staking_position_id s.staking_positions ≡ some p)
        × IsWithdrawn p (initiate_emergency_unstake dto id now s))
      ⊎ ((error : UnstakeError) × Reason error
          × (initiate_emergency_unstake dto id now s ≡ (refused error, s)))
  unfolding initiate_emergency_unstake Tried
  initiate_emergency_unstake_lem =
      elim (Bool-cases (check_rate_limit dto.staker_id now s.unstakes)) [
        | inr early ↦ inr (too_soon, early, rw early refl)
        | inl may ↦
            rw may (initiate_at-Tried (JsMap.get dto.staking_position_id s.staking_positions) refl)
      ]

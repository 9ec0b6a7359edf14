-- ===== src/Staking/Portfolio/Conserving.antt =====
-- What is staked of an asset is what was put in less what was taken out.
use atraport_api.Prelude.{
  ℕ, zero, suc, ◌+◌, ◌≤◌, String, ◌&&◌, Option, none, some, List, [], ◌∷◌, ◌++◌, ◌≡◌, refl, sym,
  ◌∙◌, arith, map, leb, eq_iff, Bool-cases, inl, inr, if◌then◌else◌,
}
use mathlib.Core.Path.{subst}
use text.Mathlib.Text.{◌==◌}
use atraport_api.Prelude.JsMap
use atraport_api.Prelude.JsMap.{JsMap}
use atraport_api.Staking.Portfolio.{
  StakingPosition, StakingAssetRequest, WithdrawAssetRequest, PortfolioService, new_service,
  PortfolioError, Answer, Withdrawal, reduced, withdraw_one, withdraw_each, withdraw_found,
  withdraw_multi, position_of, validate_stake_request, stake_onto, looked_up, look_up,
  withdraw_inherited, stake_valid, stake_multi, with_positions, invalidate_cache,
  get_portfolio_view, get_aggregated_yield,
}
use atraport_api.Staking.Portfolio.Coherence.{
  Operation, stakes, withdraws, views, yields, perform, run,
}

module _ (asset_id : String) where
  -- The amount, if it is of the asset.
  abbrev pub counted : String → ℕ → ℕ
  counted id amount = if id == asset_id then amount else 0

  abbrev pub staked : List StakingPosition → ℕ
  staked [] = 0
  staked (p ∷ rest) = counted p.asset_id p.staked_amount + staked rest

  abbrev pub or_nothing : Option (List StakingPosition) → List StakingPosition
  or_nothing none = []
  or_nothing (some positions) = positions

  abbrev pub given_out : List Withdrawal → ℕ
  given_out [] = 0
  given_out (w ∷ rest) = (if w.unlocked then counted w.asset_id w.amount else 0) + given_out rest

  reduced-staked :
      (p : StakingPosition) (amount : ℕ) (rest : List StakingPosition)
      → amount ≤ p.staked_amount
      → counted p.asset_id amount + staked (reduced p amount rest)
        ≡ counted p.asset_id p.staked_amount + staked rest
  reduced-staked p amount rest h = ground arith

  staked-append : (xs ys : List StakingPosition) → staked (xs ++ ys) ≡ staked xs + staked ys
  staked-append [] ys = omega arith
  staked-append (x ∷ xs) ys = omega (arith, staked-append xs ys)

  withdraw_one-staked :
      (id : String) (amount now : ℕ) (positions : List StakingPosition)
      → let done = withdraw_one id amount now positions in
        (if done.0 then counted id amount else 0) + staked done.1 ≡ staked positions
  unfolding withdraw_one
  withdraw_one-staked id amount now [] = refl
  withdraw_one-staked id amount now (p ∷ rest) =
      elim (Bool-cases (p.asset_id == id && leb amount p.staked_amount)) [
        | inr other ↦ rw other (ground (arith, withdraw_one-staked id amount now rest))
        | inl fits ↦
            let same : p.asset_id ≡ id = ground (arith, eq_iff p.asset_id id) in
            let enough : amount ≤ p.staked_amount = ground arith in
            elim (Bool-cases (leb p.unlocked_at now)) [
              | inl over ↦ rw fits (rw over (rw (← same) (reduced-staked p amount rest enough)))
              | inr locked ↦ rw fits (rw locked (omega arith))
            ]
      ]

  withdraw_each-staked :
      (assets : List WithdrawAssetRequest) (now : ℕ) (positions : List StakingPosition)
      → let done = withdraw_each assets now positions in
        given_out done.0 + staked done.1 ≡ staked positions
  unfolding withdraw_each
  withdraw_each-staked [] now positions = omega arith
  withdraw_each-staked (a ∷ rest) now positions =
      let one = withdraw_one-staked a.asset_id a.amount now positions in
      let later =
        withdraw_each-staked rest now (withdraw_one a.asset_id a.amount now positions).1 in
      omega (arith, one, later)

  module _ (staker_id : String) where
    abbrev pub held : PortfolioService → ℕ
    held s = staked (or_nothing (JsMap.get staker_id s.portfolio_data))

    abbrev pub if_staker : String → ℕ → ℕ
    if_staker id amount = if id == staker_id then amount else 0

    abbrev pub answered_in : Answer (List StakingPosition) → ℕ
    answered_in (inl error) = 0
    answered_in (inr positions) = staked positions

    abbrev pub answered_out : Answer (List Withdrawal) → ℕ
    answered_out (inl error) = 0
    answered_out (inr withdrawals) = given_out withdrawals

    -- What an operation puts in for the staker, and what it takes out, by its answer.
    abbrev pub put_in : Operation → ℕ → PortfolioService → ℕ
    put_in (stakes id assets) now s = if_staker id (answered_in (stake_multi id assets now s).0)
    put_in (withdraws id assets) now s = 0
    put_in (views id) now s = 0
    put_in (yields id) now s = 0

    abbrev pub taken_out : Operation → ℕ → PortfolioService → ℕ
    taken_out (stakes id assets) now s = 0
    taken_out (withdraws id assets) now s =
        if_staker id (answered_out (withdraw_multi id assets now s).0)
    taken_out (views id) now s = 0
    taken_out (yields id) now s = 0

    abbrev pub all_in : List (ℕ × Operation) → PortfolioService → ℕ
    all_in [] s = 0
    all_in ((now, op) ∷ ops) s = put_in op now s + all_in ops (perform op now s)

    abbrev pub all_out : List (ℕ × Operation) → PortfolioService → ℕ
    all_out [] s = 0
    all_out ((now, op) ∷ ops) s = taken_out op now s + all_out ops (perform op now s)

    -- The positions of one staker replaced: what is held changes by the difference for that staker.
    held-changed :
        (id : String) (positions : List StakingPosition) (s : PortfolioService) (more less : ℕ)
        → staked positions + less ≡ staked (or_nothing (JsMap.get id s.portfolio_data)) + more
        → held (invalidate_cache id (with_positions id positions s)) + if_staker id less
          ≡ held s + if_staker id more
    unfolding invalidate_cache
    held-changed id positions s more less h = elim (Bool-cases (id == staker_id)) [
      | inl same ↦
          let there : id ≡ staker_id = ground (arith, eq_iff id staker_id) in
          let stored = s.portfolio_data in
          rw (JsMap.get-set id staker_id positions stored) (
            rw same (
              subst (λ j. staked positions + less ≡ staked (or_nothing (JsMap.get j stored)) + more)
                there h))
      | inr other ↦ rw (JsMap.get-set id staker_id positions s.portfolio_data) (rw other refl)
    ]

    nothing_changes : (id : String) (n : ℕ) → n + if_staker id 0 ≡ n
    nothing_changes id n = ground arith

    staked_onto :
        (id : String) (before added : List StakingPosition) (s : PortfolioService)
        → staked (or_nothing (JsMap.get id s.portfolio_data)) ≡ staked before
        → let done = stake_onto id before added s in
          held done.1 ≡ held s + if_staker id (answered_in done.0)
    staked_onto id before added s e =
        let changed =
          held-changed id (before ++ added) s (staked added) 0
            (omega (arith, staked-append before added, e)) in
        sym (nothing_changes id _) ∙ changed

    stake-held :
        (id : String) (assets : List StakingAssetRequest) (now : ℕ) (s : PortfolioService)
        (error : Option PortfolioError) (stored : Option (List StakingPosition))
        (property : Option (Option ℕ))
        → JsMap.get id s.portfolio_data ≡ stored
        → let done = stake_valid id assets now s error (looked_up stored property) in
          held done.1 ≡ held s + if_staker id (answered_in done.0)
    stake-held id assets now s (some error) stored property e = sym (nothing_changes id (held s))
    stake-held id assets now s none (some positions) property e =
        staked_onto id positions (map (position_of now) assets) s (rw e refl)
    stake-held id assets now s none none (some n) e = sym (nothing_changes id (held s))
    stake-held id assets now s none none none e =
        staked_onto id [] (map (position_of now) assets) s (rw e refl)

    inherited-held :
        (id : String) (assets : List WithdrawAssetRequest) (s : PortfolioService) (n : Option ℕ)
        → let done = withdraw_inherited id assets s n in
          held done.1 + if_staker id (answered_out done.0) ≡ held s
    unfolding invalidate_cache
    inherited-held id assets s (some zero) = nothing_changes id (held s)
    inherited-held id [] s none = nothing_changes id (held s)
    inherited-held id [] s (some (suc n)) = nothing_changes id (held s)
    inherited-held id (a ∷ rest) s none = nothing_changes id (held s)
    inherited-held id (a ∷ rest) s (some (suc n)) = nothing_changes id (held s)

    withdraw-held :
        (id : String) (assets : List WithdrawAssetRequest) (now : ℕ) (s : PortfolioService)
        (stored : Option (List StakingPosition)) (property : Option (Option ℕ))
        → JsMap.get id s.portfolio_data ≡ stored
        → let done = withdraw_found id assets now s (looked_up stored property) in
          held done.1 + if_staker id (answered_out done.0) ≡ held s
    withdraw-held id assets now s none none e = nothing_changes id (held s)
    withdraw-held id assets now s none (some n) e = inherited-held id assets s n
    withdraw-held id assets now s (some []) property e = nothing_changes id (held s)
    withdraw-held id assets now s (some (p ∷ rest)) property e =
        let done = withdraw_each assets now (p ∷ rest) in
        let kept = withdraw_each-staked assets now (p ∷ rest) in
        let before : staked (or_nothing (JsMap.get id s.portfolio_data)) ≡ staked (p ∷ rest) =
          rw e refl in
        held-changed id done.1 s 0 (given_out done.0) (omega (arith, kept, before))
        ∙ nothing_changes id (held s)

    perform-held :
        (op : Operation) (now : ℕ) (s : PortfolioService)
        → held (perform op now s) + taken_out op now s ≡ held s + put_in op now s
    unfolding stake_multi withdraw_multi get_portfolio_view get_aggregated_yield look_up
    perform-held (stakes id assets) now s =
        omega (arith, stake-held id assets now s (validate_stake_request id assets) _ _ refl)
    perform-held (withdraws id assets) now s = omega (arith, withdraw-held id assets now s _ _ refl)
    perform-held (views id) now s = refl
    perform-held (yields id) now s = refl

    run-held :
        (ops : List (ℕ × Operation)) (s : PortfolioService)
        → held (run ops s) + all_out ops s ≡ held s + all_in ops s
    run-held [] s = refl
    run-held ((now, op) ∷ ops) s =
        omega (arith, run-held ops (perform op now s), perform-held op now s)

-- After any operations on a new service, what a staker holds of an asset and what the answers of the withdrawals
-- say was taken out of it are together what the answers of the stakes say was put in.
pub run-conserved :
    (asset_id staker_id : String) (ops : List (ℕ × Operation))
    → held asset_id staker_id (run ops new_service) + all_out asset_id staker_id ops new_service
      ≡ all_in asset_id staker_id ops new_service
unfolding JsMap.get
run-conserved asset_id staker_id ops =
    let all_held = run-held asset_id staker_id ops new_service in
    let none_held : held asset_id staker_id new_service ≡ 0 = refl in
    omega (arith, all_held, none_held)

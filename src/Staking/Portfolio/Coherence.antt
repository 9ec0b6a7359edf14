-- ===== src/Staking/Portfolio/Coherence.antt =====
-- A cached answer says what the positions say.
use atraport_api.Prelude.{ℕ, String, Option, some, List, [], ◌∷◌, ◌≡◌}
use mathlib.Core.Option
use atraport_api.Prelude.JsMap
use atraport_api.Prelude.JsMap.{JsMap}
use atraport_api.Staking.Portfolio.{
  StakingPosition, StakingAssetRequest, WithdrawAssetRequest, CachedEntry, PortfolioService,
  view_of, yield_of, stake_multi, withdraw_multi, get_portfolio_view, get_aggregated_yield,
}

module _ {V : Type 0} (f : String → List StakingPosition → V) where
  -- What a cache holds of a staker is the function of the staker's positions.
  abbrev pub Agrees : JsMap (List StakingPosition) → JsMap (CachedEntry V) → Type 0
  Agrees stored cache =
      (id : String) (e : CachedEntry V)
      → JsMap.get id cache ≡ some e
      → Option.map (f id) (JsMap.get id stored) ≡ some e.value

-- A call of the service that may change its state.
pub data Operation : Type 0 where
  stakes : String → List StakingAssetRequest → Operation
  withdraws : String → List WithdrawAssetRequest → Operation
  views : String → Operation
  yields : String → Operation

abbrev pub perform : Operation → ℕ → PortfolioService → PortfolioService
perform (stakes id assets) now s = (stake_multi id assets now s).1
perform (withdraws id assets) now s = (withdraw_multi id assets now s).1
perform (views id) now s = (get_portfolio_view id now s).1
perform (yields id) now s = (get_aggregated_yield id now s).1

-- The operations in turn, each at its time.
abbrev pub run : List (ℕ × Operation) → PortfolioService → PortfolioService
run [] s = s
run ((now, op) ∷ ops) s = run ops (perform op now s)

abbrev IsCoherent : PortfolioService → Type 0
IsCoherent s = Agrees view_of s.portfolio_data s.views × Agrees yield_of s.portfolio_data s.yields

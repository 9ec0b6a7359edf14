-- ===== src/Staking/Portfolio.antt =====
-- src/staking/portfolio.service.ts with asset-registry.service.ts: positions in several assets, and the cached
-- answers about them. Amounts and yields are whole numbers of 1e-8, rates of 1e-3, allocations of hundredths of a
-- per cent. The entries of the two kinds that one map caches, told apart by the prefix of their keys, are two
-- maps by staker. The positions are kept in a plain object, which inherits properties.
pub mod Conserving
pub mod Coherence
use atraport_api.Prelude.{
  ℕ, zero, suc, ◌+◌, ◌-◌, ◌*◌, String, Bool, true, false, not, ◌&&◌, ◌||◌, Option, none, some, List,
  [], ◌∷◌, ◌++◌, map, ltb, leb, nat_eq, length, sum, find, round_div, ◌⊎◌, inl, inr, if◌then◌else◌,
}
use mathlib.Core.Option
use text.Mathlib.Text.{◌==◌}
use atraport_api.Prelude.JsMap
use atraport_api.Prelude.JsMap.{JsMap}

pub record AssetRate : Type 0 where
  pub asset_id : String
  pub yield_rate : ℕ
  pub term_days : ℕ

pub record AssetInfo : Type 0 where
  pub asset_id : String
  pub display_name : String
  pub min_stake : ℕ
  pub max_stake : ℕ

abbrev pub get_assets : List AssetInfo
get_assets =
    record {
      asset_id = "ASTR";
      display_name = "Astra Token";
      min_stake = 1000000000;
      max_stake = 10000000000000;
    }
    ∷ record {
      asset_id = "USDC";
      display_name = "USD Coin";
      min_stake = 5000000000;
      max_stake = 50000000000000;
    }
    ∷ record {
      asset_id = "ETH";
      display_name = "Ethereum";
      min_stake = 10000000;
      max_stake = 100000000000;
    }
    ∷ []

abbrev pub asset_rates : List AssetRate
asset_rates =
    record { asset_id = "ASTR"; yield_rate = 65; term_days = 30 }
    ∷ record { asset_id = "USDC"; yield_rate = 45; term_days = 30 }
    ∷ record { asset_id = "ETH"; yield_rate = 55; term_days = 45 }
    ∷ []

unfoldable pub get_rates_by_asset_id : String → Option AssetRate
get_rates_by_asset_id asset_id = find (λ (rate : AssetRate). rate.asset_id == asset_id) asset_rates

pub record StakingAssetRequest : Type 0 where
  pub asset_id : String
  pub amount : ℕ
  pub term_days : ℕ

pub record WithdrawAssetRequest : Type 0 where
  pub asset_id : String
  pub amount : ℕ

pub record StakingPosition : Type 0 where
  pub asset_id : String
  pub staked_amount : ℕ
  pub yield_rate : ℕ
  pub term_days : ℕ
  pub unlocked_at : ℕ
  pub accrued_yield : ℕ

pub record Allocation : Type 0 where
  pub asset_id : String
  pub current_allocation : ℕ
  pub target_allocation : ℕ

pub record PortfolioView : Type 0 where
  pub staker_id : String
  pub total_value : ℕ
  pub total_yield : ℕ
  pub positions : List StakingPosition
  pub recommended_rebalance : List Allocation

pub record AggregatedYield : Type 0 where
  pub staker_id : String
  pub total_yield : ℕ
  pub assets : List (String × ℕ)

pub record CachedEntry (V : Type 0) : Type 0 where
  pub value : V
  pub expires_at : ℕ

pub record PortfolioService : Type 0 where
  pub portfolio_data : JsMap (List StakingPosition)
  pub views : JsMap (CachedEntry PortfolioView)
  pub yields : JsMap (CachedEntry AggregatedYield)

-- The properties that every plain object has, each with its own `length`, if it has one.
abbrev pub object_prototype : List (String × Option ℕ)
object_prototype =
    ("constructor", some 1)
    ∷ ("hasOwnProperty", some 1)
    ∷ ("isPrototypeOf", some 1)
    ∷ ("propertyIsEnumerable", some 1)
    ∷ ("toLocaleString", some 0)
    ∷ ("toString", some 0)
    ∷ ("valueOf", some 0)
    ∷ ("__defineGetter__", some 2)
    ∷ ("__defineSetter__", some 2)
    ∷ ("__lookupGetter__", some 1)
    ∷ ("__lookupSetter__", some 1)
    ∷ ("__proto__", none)
    ∷ []

-- What a plain object answers for a key: its own positions, a property that it inherits, or undefined.
pub data Looked : Type 0 where
  own : List StakingPosition → Looked
  inherited : Option ℕ → Looked
  undefined : Looked

abbrev pub looked_up : Option (List StakingPosition) → Option (Option ℕ) → Looked
looked_up (some positions) property = own positions
looked_up none (some property_length) = inherited property_length
looked_up none none = undefined

unfoldable pub look_up : String → JsMap (List StakingPosition) → Looked
look_up staker_id stored =
    looked_up (JsMap.get staker_id stored) (JsMap.get staker_id object_prototype)

abbrev pub new_service : PortfolioService
new_service = record { portfolio_data = []; views = []; yields = [] }

abbrev pub cache_ttl_ms : ℕ
cache_ttl_ms = 300000

pub data PortfolioError : Type 0 where
  invalid_payload not_positive no_positions staker_not_found asset_not_supported type_error :
      PortfolioError
  unsupported_asset : String → PortfolioError

-- The first error of the assets, in their order.
unfoldable pub validate_assets : List StakingAssetRequest → Option PortfolioError
validate_assets [] = none
validate_assets (asset ∷ rest) =
    let later = validate_assets rest in
    elim (get_rates_by_asset_id asset.asset_id) [
      | none ↦ some (unsupported_asset asset.asset_id)
      | some rate ↦
          if nat_eq asset.amount 0 || nat_eq asset.term_days 0 then some not_positive else later
    ]

unfoldable pub validate_stake_request : String → List StakingAssetRequest → Option PortfolioError
validate_stake_request staker_id [] = some invalid_payload
validate_stake_request staker_id (asset ∷ rest) =
    if staker_id == "" then some invalid_payload else validate_assets (asset ∷ rest)

-- The amount times the rate times the part of a year, rounded to 1e-8.
unfoldable pub calculate_yield : ℕ → ℕ → ℕ → ℕ
calculate_yield amount yield_rate term_days = round_div (amount * yield_rate * term_days) 365000

abbrev pub rate_or_zero : Option AssetRate → ℕ
rate_or_zero none = 0
rate_or_zero (some rate) = rate.yield_rate

unfoldable pub position_of : ℕ → StakingAssetRequest → StakingPosition
position_of now asset =
    let rate = rate_or_zero (get_rates_by_asset_id asset.asset_id) in
    record {
      asset_id = asset.asset_id;
      staked_amount = asset.amount;
      yield_rate = rate;
      term_days = asset.term_days;
      unlocked_at = now + asset.term_days * 86400000;
      accrued_yield = calculate_yield asset.amount rate asset.term_days;
    }

unfoldable pub invalidate_cache : String → PortfolioService → PortfolioService
invalidate_cache staker_id s = record s {
  views = JsMap.delete staker_id s.views;
  yields = JsMap.delete staker_id s.yields;
}

abbrev pub Answer : Type 0 → Type 0
Answer V = PortfolioError ⊎ V

abbrev pub with_positions : String → List StakingPosition → PortfolioService → PortfolioService
with_positions staker_id positions s = record s {
  portfolio_data = JsMap.set staker_id positions s.portfolio_data;
}

abbrev pub stake_onto :
    String
    → List StakingPosition
    → List StakingPosition
    → PortfolioService
    → Answer (List StakingPosition) × PortfolioService
stake_onto staker_id before added s =
    (inr added, invalidate_cache staker_id (with_positions staker_id (before ++ added) s))

-- What is inherited cannot be spread.
abbrev pub stake_valid :
    String
    → List StakingAssetRequest
    → ℕ
    → PortfolioService
    → Option PortfolioError
    → Looked
    → Answer (List StakingPosition) × PortfolioService
stake_valid staker_id assets now s (some error) stored = (inl error, s)
stake_valid staker_id assets now s none (own positions) =
    stake_onto staker_id positions (map (position_of now) assets) s
stake_valid staker_id assets now s none (inherited property_length) = (inl type_error, s)
stake_valid staker_id assets now s none undefined =
    stake_onto staker_id [] (map (position_of now) assets) s

unfoldable pub stake_multi :
    String
    → List StakingAssetRequest
    → ℕ
    → PortfolioService
    → Answer (List StakingPosition) × PortfolioService
stake_multi staker_id assets now s =
    stake_valid staker_id assets now s (validate_stake_request staker_id assets)
      (look_up staker_id s.portfolio_data)

pub record Withdrawal : Type 0 where
  pub asset_id : String
  pub amount : ℕ
  pub unlocked : Bool

abbrev pub reduced : StakingPosition → ℕ → List StakingPosition → List StakingPosition
reduced p amount rest =
    let left = p.staked_amount - amount in
    if nat_eq left 0 then rest else record p { staked_amount = left } ∷ rest

-- The first position of the asset that holds the amount gives it, if its term is over.
unfoldable pub withdraw_one : String → ℕ → ℕ → List StakingPosition → Bool × List StakingPosition
withdraw_one asset_id amount now [] = (false, [])
withdraw_one asset_id amount now (p ∷ rest) =
    let later = withdraw_one asset_id amount now rest in
    if p.asset_id == asset_id && leb amount p.staked_amount
    then (if leb p.unlocked_at now then (true, reduced p amount rest) else (false, p ∷ rest))
    else (later.0, p ∷ later.1)

unfoldable pub withdraw_each :
    List WithdrawAssetRequest → ℕ → List StakingPosition → List Withdrawal × List StakingPosition
withdraw_each [] now positions = ([], positions)
withdraw_each (asset ∷ rest) now positions =
    let one = withdraw_one asset.asset_id asset.amount now positions in
    let later = withdraw_each rest now one.1 in
    (
      record { asset_id = asset.asset_id; amount = asset.amount; unlocked = one.0 } ∷ later.0,
      later.1,
    )

-- What is inherited has no `find`, which is called if anything is to be withdrawn.
abbrev pub withdraw_inherited :
    String
    → List WithdrawAssetRequest
    → PortfolioService
    → Option ℕ
    → Answer (List Withdrawal) × PortfolioService
withdraw_inherited staker_id assets s (some zero) = (inl no_positions, s)
withdraw_inherited staker_id [] s property_length = (inr [], invalidate_cache staker_id s)
withdraw_inherited staker_id (asset ∷ rest) s property_length = (inl type_error, s)

abbrev pub withdraw_found :
    String
    → List WithdrawAssetRequest
    → ℕ
    → PortfolioService
    → Looked
    → Answer (List Withdrawal) × PortfolioService
withdraw_found staker_id assets now s undefined = (inl no_positions, s)
withdraw_found staker_id assets now s (inherited property_length) =
    withdraw_inherited staker_id assets s property_length
withdraw_found staker_id assets now s (own []) = (inl no_positions, s)
withdraw_found staker_id assets now s (own (p ∷ rest)) =
    let done = withdraw_each assets now (p ∷ rest) in
    (inr done.0, invalidate_cache staker_id (with_positions staker_id done.1 s))

unfoldable pub withdraw_multi :
    String
    → List WithdrawAssetRequest
    → ℕ
    → PortfolioService
    → Answer (List Withdrawal) × PortfolioService
withdraw_multi staker_id assets now s =
    withdraw_found staker_id assets now s (look_up staker_id s.portfolio_data)

abbrev pub total_staked : List StakingPosition → ℕ
total_staked positions = sum (map (λ (p : StakingPosition). p.staked_amount) positions)

abbrev pub total_yield_of : List StakingPosition → ℕ
total_yield_of positions = sum (map (λ (p : StakingPosition). p.accrued_yield) positions)

-- The staked amounts by asset.
unfoldable pub allocations : JsMap ℕ → List StakingPosition → JsMap ℕ
allocations acc [] = acc
allocations acc (p ∷ rest) =
    let held = Option.get_or (JsMap.get p.asset_id acc) 0 in
    allocations (JsMap.set p.asset_id (held + p.staked_amount) acc) rest

unfoldable pub optimize_portfolio : List StakingPosition → List Allocation
optimize_portfolio positions =
    let by_asset = allocations [] positions in
    let total = total_staked positions in
    map
      (λ (e : String × ℕ). record {
        asset_id = e.0;
        current_allocation = round_div (e.1 * 10000) total;
        target_allocation = round_div 10000 (length by_asset);
      })
      by_asset

unfoldable pub view_of : String → List StakingPosition → PortfolioView
view_of staker_id positions = record {
  staker_id = staker_id;
  total_value = total_staked positions;
  total_yield = total_yield_of positions;
  positions = positions;
  recommended_rebalance = optimize_portfolio positions;
}

unfoldable pub yield_of : String → List StakingPosition → AggregatedYield
yield_of staker_id positions = record {
  staker_id = staker_id;
  total_yield = total_yield_of positions;
  assets = map (λ (p : StakingPosition). (p.asset_id, p.accrued_yield)) positions;
}

-- The entry, unless it has expired.
unfoldable pub fresh : {V : Type 0} → ℕ → Option (CachedEntry V) → Option V
fresh now none = none
fresh now (some entry) = if ltb entry.expires_at now then none else some entry.value

-- An answer that is not cached is computed of the positions, if there are any, and then cached.
module _ {V : Type 0} (of_positions : List StakingPosition → V) (staker_id : String) (now : ℕ) where
  abbrev pub computed : Looked → JsMap (CachedEntry V) → Answer V × JsMap (CachedEntry V)
  computed undefined cache = (inl staker_not_found, JsMap.delete staker_id cache)
  computed (inherited property_length) cache = (inl type_error, JsMap.delete staker_id cache)
  computed (own positions) cache =
      let value = of_positions positions in
      let entry : CachedEntry V = record { value = value; expires_at = now + cache_ttl_ms } in
      (inr value, JsMap.set staker_id entry (JsMap.delete staker_id cache))

  abbrev pub cached_or :
      Option V → Looked → JsMap (CachedEntry V) → Answer V × JsMap (CachedEntry V)
  cached_or (some value) positions cache = (inr value, cache)
  cached_or none positions cache = computed positions cache

  unfoldable pub through_cache : Looked → JsMap (CachedEntry V) → Answer V × JsMap (CachedEntry V)
  through_cache positions cache = cached_or (fresh now (JsMap.get staker_id cache)) positions cache

unfoldable pub get_portfolio_view :
    String → ℕ → PortfolioService → Answer PortfolioView × PortfolioService
get_portfolio_view staker_id now s =
    let stored = look_up staker_id s.portfolio_data in
    let done = through_cache (view_of staker_id) staker_id now stored s.views in
    (done.0, record s { views = done.1 })

unfoldable pub get_aggregated_yield :
    String → ℕ → PortfolioService → Answer AggregatedYield × PortfolioService
get_aggregated_yield staker_id now s =
    let stored = look_up staker_id s.portfolio_data in
    let done = through_cache (yield_of staker_id) staker_id now stored s.yields in
    (done.0, record s { yields = done.1 })

abbrev pub found_or : {V : Type 0} → PortfolioError → Option V → Answer V
found_or error none = inl error
found_or error (some v) = inr v

abbrev pub answer_of : {V : Type 0} → (List StakingPosition → V) → Looked → Answer V
answer_of f (own positions) = inr (f positions)
answer_of f (inherited property_length) = inl type_error
answer_of f undefined = inl staker_not_found

unfoldable pub get_positions_by_staker : String → PortfolioService → Answer (List StakingPosition)
get_positions_by_staker staker_id s =
    answer_of (λ positions. positions) (look_up staker_id s.portfolio_data)

unfoldable pub get_asset_rates : String → Answer AssetRate
get_asset_rates asset_id = found_or asset_not_supported (get_rates_by_asset_id asset_id)

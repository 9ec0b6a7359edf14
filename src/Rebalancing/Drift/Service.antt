-- ===== src/Rebalancing/Drift/Service.antt =====
-- src/rebalancing/drift-calculator.service.ts: the configurations, the history, the alerts and the webhooks.
-- The identifiers of new snapshots, alerts and webhooks are arguments, as is the clock; an alert's message,
-- which repeats its numbers, is left out. What is sent to webhooks is part of an answer: a failed request is
-- only logged.
use atraport_api.Prelude.{
  ℕ, zero, suc, ◌+◌, ◌-◌, String, Bool, true, false, not, ◌&&◌, Option, none, some, List, [], ◌∷◌,
  ◌++◌, map, length, filter, any, drop, truthy, if◌then◌else◌,
}
use atraport_api.Prelude.JsMap
use atraport_api.Prelude.JsMap.{JsMap}
use atraport_api.Rebalancing.Drift.{
  Severity, warning, critical, AssetAllocation, AssetDrift, DriftStatus, DriftConfig, snapshot,
  warning_or_default, critical_or_default, is_breach,
}
use text.Mathlib.Text.{◌==◌}

pub record DriftAlert : Type 0 where
  pub alert_id : String
  pub portfolio_id : String
  pub severity : Severity
  pub affected_asset : String
  pub current_drift : ℕ
  pub threshold : ℕ
  pub triggered_at : ℕ
  pub acknowledged : Bool
  pub acknowledged_at : Option ℕ
  pub acknowledged_by : Option String

pub record DriftHistoryEntry : Type 0 where
  pub snapshot_id : String
  pub portfolio_id : String
  pub timestamp : ℕ
  pub overall_drift : ℕ
  pub max_drift : ℕ
  pub status : Option Severity
  pub asset_count : ℕ
  pub assets_in_breach : ℕ

pub data DriftEvent : Type 0 where
  breach : Severity → DriftEvent
  resolved : DriftEvent

pub record DriftWebhook : Type 0 where
  pub webhook_id : String
  pub portfolio_id : String
  pub webhook_url : String
  pub events : List DriftEvent
  pub secret : Option String
  pub registered_at : ℕ

pub record DriftCalculator : Type 0 where
  pub configs : JsMap DriftConfig
  pub history : JsMap (List DriftHistoryEntry)
  pub alerts : JsMap DriftAlert
  pub webhooks : JsMap (List DriftWebhook)

abbrev pub new_calculator : DriftCalculator
new_calculator = record { configs = []; history = []; alerts = []; webhooks = [] }

pub record Dispatched : Type 0 where
  pub url : String
  pub event : Severity
  pub alert : DriftAlert

-- What `updateConfig` may change.
pub record ConfigChange : Type 0 where
  pub warning_threshold : Option ℕ
  pub critical_threshold : Option ℕ
  pub webhook_url : Option String
  pub enabled : Option Bool

abbrev pub or_none {ℓ} : {A : Type ℓ} → Option (List A) → List A
or_none none = []
or_none (some xs) = xs

unfoldable pub create_config :
    String → ℕ → ℕ → Option String → Bool → ℕ → DriftCalculator → DriftConfig × DriftCalculator
create_config portfolio_id warning_threshold critical_threshold webhook_url enabled now s =
    let entry : DriftConfig = record {
      portfolio_id = portfolio_id;
      warning_threshold = warning_threshold;
      critical_threshold = critical_threshold;
      webhook_url = webhook_url;
      enabled = enabled;
      created_at = now;
      updated_at = now;
    } in
    (entry, record s { configs = JsMap.set portfolio_id entry s.configs })

abbrev pub changed {ℓ} : {A : Type ℓ} → Option A → A → A
changed none old = old
changed (some new) old = new

abbrev pub changed_url : Option String → Option String → Option String
changed_url none old = old
changed_url (some new) old = some new

abbrev pub with_change : ConfigChange → ℕ → DriftConfig → DriftConfig
with_change change now existing = record existing {
  warning_threshold = changed change.warning_threshold existing.warning_threshold;
  critical_threshold = changed change.critical_threshold existing.critical_threshold;
  webhook_url = changed_url change.webhook_url existing.webhook_url;
  enabled = changed change.enabled existing.enabled;
  updated_at = now;
}

abbrev pub update_found :
    String
    → ConfigChange
    → ℕ
    → DriftCalculator
    → Option DriftConfig
    → Option DriftConfig × DriftCalculator
update_found portfolio_id change now s none = (none, s)
update_found portfolio_id change now s (some existing) =
    let updated = with_change change now existing in
    (some updated, record s { configs = JsMap.set portfolio_id updated s.configs })

-- `none` is the NotFoundException.
unfoldable pub update_config :
    String → ConfigChange → ℕ → DriftCalculator → Option DriftConfig × DriftCalculator
update_config portfolio_id change now s =
    update_found portfolio_id change now s (JsMap.get portfolio_id s.configs)

-- `xs.slice(-n)`, which is `xs.slice(0)` for 0.
unfoldable pub slice_last {ℓ} : {A : Type ℓ} → ℕ → List A → List A
slice_last zero xs = xs
slice_last (suc n) xs = drop (length xs - suc n) xs

unfoldable pub reverse {ℓ} : {A : Type ℓ} → List A → List A
reverse [] = []
reverse (x ∷ xs) = reverse xs ++ (x ∷ [])

unfoldable pub get_history : String → ℕ → DriftCalculator → List DriftHistoryEntry
get_history portfolio_id limit s =
    reverse (slice_last limit (or_none (JsMap.get portfolio_id s.history)))

abbrev pub history_entry : String → DriftStatus → DriftHistoryEntry
history_entry snapshot_id taken = record {
  snapshot_id = snapshot_id;
  portfolio_id = taken.portfolio_id;
  timestamp = taken.timestamp;
  overall_drift = taken.overall_drift;
  max_drift = taken.max_drift;
  status = taken.status;
  asset_count = length taken.assets;
  assets_in_breach = length (filter (λ (a : AssetDrift). is_breach a.status) taken.assets);
}

abbrev pub max_history : ℕ
max_history = 1000

unfoldable pub persist_snapshot : String → String → DriftStatus → DriftCalculator → DriftCalculator
persist_snapshot portfolio_id snapshot_id taken s =
    let existing = or_none (JsMap.get portfolio_id s.history) in
    let entries = slice_last max_history (existing ++ (history_entry snapshot_id taken ∷ [])) in
    record s { history = JsMap.set portfolio_id entries s.history }

abbrev pub same_severity : Severity → Severity → Bool
same_severity warning warning = true
same_severity critical critical = true
same_severity a b = false

abbrev pub is_event : Severity → DriftEvent → Bool
is_event severity (breach other) = same_severity severity other
is_event severity resolved = false

unfoldable pub dispatch_webhook_notifications :
    Severity → DriftAlert → List DriftWebhook → List Dispatched
dispatch_webhook_notifications event alert subscriptions =
    map (λ (w : DriftWebhook). record { url = w.webhook_url; event = event; alert = alert })
      (filter (λ (w : DriftWebhook). any (is_event event) w.events) subscriptions)

unfoldable pub is_duplicate : String → String → Severity → DriftAlert → Bool
is_duplicate portfolio_id symbol severity a =
    a.portfolio_id == portfolio_id
    && a.affected_asset == symbol
    && same_severity a.severity severity
    && not a.acknowledged

-- The thresholds as the pair of the warning and the critical one.
abbrev pub threshold_of : ℕ × ℕ → Severity → ℕ
threshold_of (low, high) warning = low
threshold_of (low, high) critical = high

abbrev pub alert_of : String → ℕ → ℕ × ℕ → String → AssetDrift → Severity → DriftAlert
alert_of portfolio_id now limits id asset severity = record {
  alert_id = id;
  portfolio_id = portfolio_id;
  severity = severity;
  affected_asset = asset.symbol;
  current_drift = asset.absolute_drift;
  threshold = threshold_of limits severity;
  triggered_at = now;
  acknowledged = false;
  acknowledged_at = none;
  acknowledged_by = none;
}

module _ (portfolio_id : String) (now : ℕ) (limits : ℕ × ℕ)
    (subscriptions : List DriftWebhook) where
  unfoldable pub raise_alert :
      String → AssetDrift → Option Severity → JsMap DriftAlert → JsMap DriftAlert × List Dispatched
  raise_alert id asset none alerts = (alerts, [])
  raise_alert id asset (some severity) alerts =
      let alert = alert_of portfolio_id now limits id asset severity in
      if any (is_duplicate portfolio_id asset.symbol severity) (JsMap.values alerts)
      then (alerts, [])
      else (JsMap.set id alert alerts, dispatch_webhook_notifications severity alert subscriptions)

  -- The identifier of an alert that the asset at a place raises is `ids` of the place.
  unfoldable pub generate_alerts :
      (ℕ → String) → ℕ → List AssetDrift → JsMap DriftAlert → JsMap DriftAlert × List Dispatched
  generate_alerts ids i [] alerts = (alerts, [])
  generate_alerts ids i (asset ∷ rest) alerts =
      let first = raise_alert (ids i) asset asset.status alerts in
      let later = generate_alerts ids (i + 1) rest first.0 in (later.0, first.1 ++ later.1)

unfoldable pub calculate_drift :
    String
    → List AssetAllocation
    → String
    → (ℕ → String)
    → ℕ
    → DriftCalculator
    → DriftStatus × List Dispatched × DriftCalculator
calculate_drift portfolio_id assets snapshot_id ids now s =
    let config = JsMap.get portfolio_id s.configs in
    let taken = snapshot config portfolio_id assets now in
    let s' = persist_snapshot portfolio_id snapshot_id taken s in
    let limits : ℕ × ℕ = (warning_or_default config, critical_or_default config) in
    let subscriptions = or_none (JsMap.get portfolio_id s'.webhooks) in
    let raised =
      generate_alerts portfolio_id now limits subscriptions ids 0 taken.assets s'.alerts in
    (taken, raised.1, record s' { alerts = raised.0 })

abbrev pub of_portfolio : Option String → List DriftAlert → List DriftAlert
of_portfolio none alerts = alerts
of_portfolio (some id) alerts = filter (λ (a : DriftAlert). a.portfolio_id == id) alerts

unfoldable pub get_active_alerts : Option String → DriftCalculator → List DriftAlert
get_active_alerts portfolio_id s =
    of_portfolio (truthy portfolio_id)
      (filter (λ (a : DriftAlert). not a.acknowledged) (JsMap.values s.alerts))

abbrev pub settled : Option String → ℕ → DriftAlert → DriftAlert
settled by now alert = record alert {
  acknowledged = true;
  acknowledged_at = some now;
  acknowledged_by = some (changed by "system");
}

abbrev pub acknowledge_found :
    String
    → Option String
    → ℕ
    → DriftCalculator
    → Option DriftAlert
    → Option DriftAlert × DriftCalculator
acknowledge_found alert_id by now s none = (none, s)
acknowledge_found alert_id by now s (some alert) =
    let marked = settled by now alert in
    (some marked, record s { alerts = JsMap.set alert_id marked s.alerts })

-- `none` is the NotFoundException.
unfoldable pub acknowledge_alert :
    String → Option String → ℕ → DriftCalculator → Option DriftAlert × DriftCalculator
acknowledge_alert alert_id by now s =
    acknowledge_found alert_id by now s (JsMap.get alert_id s.alerts)

unfoldable pub register_webhook :
    String
    → String
    → String
    → List DriftEvent
    → Option String
    → ℕ
    → DriftCalculator
    → DriftWebhook × DriftCalculator
register_webhook webhook_id portfolio_id url events secret now s =
    let subscription : DriftWebhook = record {
      webhook_id = webhook_id;
      portfolio_id = portfolio_id;
      webhook_url = url;
      events = events;
      secret = secret;
      registered_at = now;
    } in
    let existing = or_none (JsMap.get portfolio_id s.webhooks) in
    let subscriptions = existing ++ (subscription ∷ []) in
    (subscription, record s { webhooks = JsMap.set portfolio_id subscriptions s.webhooks })

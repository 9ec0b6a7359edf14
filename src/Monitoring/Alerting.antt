-- ===== src/Monitoring/Alerting.antt =====
-- src/monitoring/alerting.service.ts: the evaluation of the alert rules and the alerts that they fire.
-- What the other services report when the rules are evaluated is a record of readings; the error rate and
-- the latency are in hundredths, which is what the code rounds them to. An alert's id (of the clock and a
-- random number) is an argument, and its message is not modelled.
pub mod History
pub mod States
use atraport_api.Prelude.{
  ℕ, zero, suc, ◌+◌, ◌-◌, String, Bool, true, false, not, ◌&&◌, Option, none, some, List, [], ◌∷◌,
  ltb, leb, length, if◌then◌else◌,
}
use text.Mathlib.Text.{◌==◌}
use atraport_api.Prelude.JsMap
use atraport_api.Prelude.JsMap.{JsMap, values}
use atraport_api.Monitoring.Metrics.{Metrics, get_metric_value}
use atraport_api.Monitoring.Rules.{
  AlertSeverity, warning, AlertRule, firing, ok, is_firing, initialize_default_rules,
}

pub record FiredAlert : Type 0 where
  pub id : String
  pub rule_id : String
  pub rule_name : String
  pub severity : AlertSeverity
  pub fired_at : ℕ
  pub resolved_at : Option ℕ
  pub value : ℕ
  pub threshold : ℕ

-- `notified` is what `opsAlertEmitter` has emitted, the last one first.
pub record AlertingService : Type 0 where
  pub rules : JsMap AlertRule
  pub fired_alerts_history : List FiredAlert
  pub notified : List FiredAlert

pub data HealthStatus : Type 0 where
  up down degraded : HealthStatus

-- `database` is missing where the report has no such component.
pub record Readings : Type 0 where
  pub total_requests : ℕ
  pub error_rate_percentage : ℕ
  pub latency_p95 : ℕ
  pub heap_used_percent : ℕ
  pub database : Option HealthStatus
  pub failed_rebalancings : ℕ

abbrev pub max_alert_history : ℕ
max_alert_history = 500

unfoldable pub initial_alerting : AlertingService
initial_alerting = record {
  rules = initialize_default_rules;
  fired_alerts_history = [];
  notified = [];
}

-- `xs.pop()`
unfoldable pub pop {ℓ} : {A : Type ℓ} → List A → List A
pop [] = []
pop (x ∷ []) = []
pop (x ∷ (y ∷ ys)) = x ∷ pop (y ∷ ys)

unfoldable pub push_alert : FiredAlert → List FiredAlert → List FiredAlert
push_alert alert history =
    if ltb max_alert_history (length (alert ∷ history))
    then pop (alert ∷ history)
    else alert ∷ history

unfoldable pub alert_of : AlertRule → ℕ → ℕ → String → FiredAlert
alert_of r value now id = record {
  id = id;
  rule_id = r.id;
  rule_name = r.name;
  severity = r.severity;
  fired_at = now;
  resolved_at = none;
  value = value;
  threshold = r.threshold;
}

-- The rule is the object that the map holds.
unfoldable pub fire_alert : AlertRule → ℕ → ℕ → String → AlertingService → AlertingService
fire_alert r value now id s =
    let alert = alert_of r value now id in
    record s {
      rules = JsMap.set r.id (record r { state = firing; last_fired_at = some now }) s.rules;
      fired_alerts_history = push_alert alert s.fired_alerts_history;
      notified = alert ∷ s.notified;
    }

is_open : Option ℕ → Bool
is_open none = true
is_open (some t) = false

-- `a.ruleId === rule.id && !a.resolvedAt`
unfoldable pub is_active : String → FiredAlert → Bool
unfolding is_open
is_active rule_id a = a.rule_id == rule_id && is_open a.resolved_at

-- The first active alert of the rule is resolved; the second component is that alert.
unfoldable pub resolve_first : String → ℕ → List FiredAlert → List FiredAlert × List FiredAlert
resolve_first rule_id now [] = ([], [])
resolve_first rule_id now (a ∷ rest) =
    let (rest', resolved) = resolve_first rule_id now rest in
    let a' = record a { resolved_at = some now } in
    if is_active rule_id a then (a' ∷ rest, a' ∷ []) else (a ∷ rest', resolved)

notify : List FiredAlert → List FiredAlert → List FiredAlert
notify [] notified = notified
notify (a ∷ as_) notified = a ∷ notified

unfoldable pub resolve_alert : AlertRule → ℕ → AlertingService → AlertingService
unfolding notify
resolve_alert r now s =
    let (history, resolved) = resolve_first r.id now s.fired_alerts_history in
    record s {
      rules = JsMap.set r.id (record r { state = ok }) s.rules;
      fired_alerts_history = history;
      notified = notify resolved s.notified;
    }

-- One of the five blocks of `evaluateRules`: when it fires, with what value, and when a rule that was
-- firing is resolved instead.
unfoldable pub evaluate_found :
    Option AlertRule
    → (AlertRule → Bool)
    → (AlertRule → Bool)
    → ℕ
    → ℕ
    → (String → String)
    → AlertingService
    → AlertingService
evaluate_found none fires clears value now new_id s = s
evaluate_found (some r) fires clears value now new_id s =
    let r' = record r { last_evaluated_at = some now } in
    let s' = record s { rules = JsMap.set r.id r' s.rules } in
    if not r.enabled
    then s
    else if fires r'
    then fire_alert r' value now (new_id r.id) s'
    else if is_firing r'.state && clears r'
    then resolve_alert r' now s'
    else s'

unfoldable pub evaluate_rule :
    String
    → (AlertRule → Bool)
    → (AlertRule → Bool)
    → ℕ
    → ℕ
    → (String → String)
    → AlertingService
    → AlertingService
evaluate_rule id fires clears value now new_id s =
    evaluate_found (JsMap.get id s.rules) fires clears value now new_id s

abbrev pub is_down : Option HealthStatus → Bool
is_down (some down) = true
is_down _ = false

abbrev pub error_rate_fires : Readings → AlertRule → Bool
error_rate_fires now_read r =
    leb 10 now_read.total_requests && ltb r.threshold now_read.error_rate_percentage

abbrev pub error_rate_clears : Readings → AlertRule → Bool
error_rate_clears now_read r = leb now_read.error_rate_percentage r.threshold

unfoldable pub evaluate_rules : Readings → ℕ → (String → String) → AlertingService → AlertingService
evaluate_rules readings now new_id s =
    let s1 =
      evaluate_rule "high-error-rate" (error_rate_fires readings) (error_rate_clears readings)
        readings.error_rate_percentage now new_id s in
    let s2 =
      evaluate_rule "high-latency-p95" (λ r. ltb r.threshold readings.latency_p95)
        (λ r. leb readings.latency_p95 r.threshold) readings.latency_p95 now new_id s1 in
    let s3 =
      evaluate_rule "high-memory-usage" (λ r. ltb r.threshold readings.heap_used_percent)
        (λ r. leb readings.heap_used_percent r.threshold) readings.heap_used_percent now new_id
        s2 in
    let s4 =
      evaluate_rule "database-disconnected" (λ r. is_down readings.database) (λ r. true) 0 now
        new_id s3 in
    evaluate_rule "rebalancing-failure-spike" (λ r. leb r.threshold readings.failed_rebalancings)
      (λ r. ltb readings.failed_rebalancings r.threshold) readings.failed_rebalancings now new_id s4

-- The history is not cut here.
unfoldable pub trigger_test_alert : ℕ → String → AlertingService → FiredAlert × AlertingService
trigger_test_alert now id s =
    let alert : FiredAlert = record {
      id = id;
      rule_id = "test-ops-alert";
      rule_name = "TestOpsAlert";
      severity = warning;
      fired_at = now;
      resolved_at = none;
      value = 1;
      threshold = 1;
    } in
    (
      alert,
      record s {
        fired_alerts_history = alert ∷ s.fired_alerts_history;
        notified = alert ∷ s.notified;
      },
    )

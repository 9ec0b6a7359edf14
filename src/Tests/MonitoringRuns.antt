-- ===== src/Tests/MonitoringRuns.antt =====
-- src/monitoring: runs of the metrics and the alert rules.
use atraport_api.Prelude.{ℕ, String, true, false, none, some, [], ◌∷◌, ◌≡◌, refl, ◌<>◌}
use atraport_api.Prelude.JsMap
use atraport_api.Monitoring.Rules.{AlertRule, critical, ok}
use atraport_api.Monitoring.Alerting.{AlertingService, Readings, down, evaluate_rules}
use atraport_api.Monitoring.Alerting.States.{is_firing_in, firing-evaluate_rules}

abbrev bad_readings : Readings
bad_readings = record {
  total_requests = 12;
  error_rate_percentage = 700;
  latency_p95 = 20;
  heap_used_percent = 50;
  database = some down;
  failed_rebalancings = 3;
}

abbrev alert_ids : String → String
alert_ids rule_id = "alert-" <> rule_id

abbrev a_rule : String → String → ℕ → AlertRule
a_rule id name threshold = record {
  id = id;
  name = name;
  expression = "";
  severity = critical;
  threshold = threshold;
  window_minutes = 1;
  enabled = true;
  state = ok;
  last_evaluated_at = none;
  last_fired_at = none;
}

abbrev r1 : AlertRule
r1 = a_rule "high-error-rate" "HighErrorRate" 500

abbrev r2 : AlertRule
r2 = a_rule "high-latency-p95" "HighLatencyP95" 100000

abbrev r3 : AlertRule
r3 = a_rule "high-memory-usage" "HighMemoryUsage" 85

abbrev r4 : AlertRule
r4 = a_rule "database-disconnected" "DatabaseDisconnected" 0

abbrev r5 : AlertRule
r5 = a_rule "rebalancing-failure-spike" "RebalancingFailureSpike" 3

abbrev alerting : AlertingService
alerting = record {
  rules = (r1.id, r1) ∷ (r2.id, r2) ∷ (r3.id, r3) ∷ (r4.id, r4) ∷ (r5.id, r5) ∷ [];
  fired_alerts_history = [];
  notified = [];
}

firing-evaluate_rules_example :
    let after = evaluate_rules bad_readings 5 alert_ids alerting in
    (is_firing_in "high-error-rate" after ≡ true)
    × (is_firing_in "high-latency-p95" after ≡ false)
    × (is_firing_in "high-memory-usage" after ≡ false)
    × (is_firing_in "database-disconnected" after ≡ true)
    × (is_firing_in "rebalancing-failure-spike" after ≡ true)
unfolding JsMap.get
firing-evaluate_rules_example =
    firing-evaluate_rules bad_readings 5 alert_ids r1 r2 r3 r4 r5 alerting (
      (refl, refl, refl),
      (refl, refl, refl),
      (refl, refl, refl),
      (refl, refl, refl),
      (refl, refl, refl),
    )

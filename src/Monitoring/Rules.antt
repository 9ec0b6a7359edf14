-- ===== src/Monitoring/Rules.antt =====
-- The alert rules of src/monitoring/alerting.service.ts and the ones it starts with. The thresholds of the
-- error rate and the latency are in hundredths.
use atraport_api.Prelude.{ℕ, String, Bool, true, false, Option, none, [], ◌∷◌}
use atraport_api.Prelude.JsMap.{JsMap}

pub data AlertSeverity : Type 0 where
  critical warning info : AlertSeverity

pub data AlertState : Type 0 where
  ok pending firing : AlertState

pub record AlertRule : Type 0 where
  pub id : String
  pub name : String
  pub expression : String
  pub severity : AlertSeverity
  pub threshold : ℕ
  pub window_minutes : ℕ
  pub enabled : Bool
  pub state : AlertState
  pub last_evaluated_at : Option ℕ
  pub last_fired_at : Option ℕ

abbrev pub is_firing : AlertState → Bool
is_firing firing = true
is_firing _ = false

rule : String → String → String → AlertSeverity → ℕ → ℕ → AlertRule
rule id name expression severity threshold window_minutes = record {
  id = id;
  name = name;
  expression = expression;
  severity = severity;
  threshold = threshold;
  window_minutes = window_minutes;
  enabled = true;
  state = ok;
  last_evaluated_at = none;
  last_fired_at = none;
}

-- The order is that of the array.
unfoldable pub initialize_default_rules : JsMap AlertRule
unfolding rule
initialize_default_rules =
    (
      "high-error-rate",
      rule "high-error-rate" "HighErrorRate" "http_errors_total / http_requests_total * 100 > 5%"
          critical 500 5,
    )
    ∷ (
      "high-latency-p95",
      rule "high-latency-p95" "HighLatencyP95" "http_request_duration_p95 > 1000ms" warning 100000
          5,
    )
    ∷ (
      "high-memory-usage",
      rule "high-memory-usage" "HighMemoryUsage"
          "process_memory_heap_used_bytes / process_memory_heap_total_bytes > 85%" warning 85 3,
    )
    ∷ (
      "database-disconnected",
      rule "database-disconnected" "DatabaseDisconnected" "health_database_status == 0" critical 0
          1,
    )
    ∷ (
      "rebalancing-failure-spike",
      rule "rebalancing-failure-spike" "RebalancingFailureSpike"
          "astraport_rebalancing_executions_total{status=\"failed\"} > 3" critical 3 10,
    )
    ∷ []

-- ===== src/Monitoring/Metrics.antt =====
-- src/monitoring/metrics.service.ts: registered metrics, each with a value for every set of labels.
-- Values are natural numbers: every counter of the program counts, and its gauges are sizes.
pub mod Values
pub mod Names
use atraport_api.Prelude.{
  ℕ, ◌+◌, String, Bool, Option, none, some, List, [], ◌∷◌, ◌&&◌, nat_eq, length, find, all, opt_eq,
  if◌then◌else◌,
}
use Prim.Native.String
use atraport_api.Prelude.JsMap
use atraport_api.Prelude.JsMap.{JsMap}

-- `Record<string, string>`
abbrev pub Labels : Type 0
Labels = JsMap String

pub record MetricValue : Type 0 where
  pub labels : Labels
  pub value : ℕ

pub data MetricType : Type 0 where
  counter gauge histogram : MetricType

pub record Metric : Type 0 where
  pub name : String
  pub help : String
  pub type : MetricType
  pub values : List MetricValue

abbrev pub Metrics : Type 0
Metrics = JsMap Metric

-- `areLabelsEqual`
unfoldable pub are_labels_equal : Labels → Labels → Bool
are_labels_equal l1 l2 =
    nat_eq (length l1) (length l2)
    && all (λ key. opt_eq (JsMap.get key l1) (JsMap.get key l2)) (JsMap.keys l1)

abbrev pub has_labels : Labels → MetricValue → Bool
has_labels labels v = are_labels_equal v.labels labels

-- `findMetricValue`, and the write to the value that it found; a new value is pushed.
unfoldable pub update_value : Labels → (ℕ → ℕ) → ℕ → List MetricValue → List MetricValue
update_value labels change first [] = record { labels = labels; value = first } ∷ []
update_value labels change first (v ∷ vs) =
    if has_labels labels v
    then record v { value = change v.value } ∷ vs
    else v ∷ update_value labels change first vs

update_metric : String → Labels → (ℕ → ℕ) → ℕ → Option Metric → Metrics → Metrics
update_metric name labels change first none ms = ms
update_metric name labels change first (some m) ms =
    JsMap.set name (record m { values = update_value labels change first m.values }) ms

register : Metric → Option Metric → Metrics → Metrics
register metric none ms = JsMap.set metric.name metric ms
register metric (some old) ms = ms

unfoldable pub register_metric : Metric → Metrics → Metrics
unfolding register
register_metric metric ms = register metric (JsMap.get metric.name ms) ms

unfoldable pub increment_counter : String → Labels → ℕ → Metrics → Metrics
unfolding update_metric
increment_counter name labels amount ms =
    update_metric name labels (λ n. n + amount) amount (JsMap.get name ms) ms

unfoldable pub set_gauge : String → ℕ → Labels → Metrics → Metrics
unfolding update_metric
set_gauge name value labels ms = update_metric name labels (λ n. value) value (JsMap.get name ms) ms

-- The sum is kept under the metric's own name, the count under `<name>_count`, if that is registered.
-- An observed duration is in a fixed fraction of a second.
abbrev pub count_name : String → String
count_name name = String.◌++◌ name "_count"

observe_count : String → Labels → Option Metric → Metrics → Metrics
observe_count name labels none ms = ms
observe_count name labels (some m) ms = increment_counter (count_name name) labels 1 ms

observe : String → ℕ → Labels → Option Metric → Metrics → Metrics
observe name duration labels none ms = ms
observe name duration labels (some m) ms =
    let summed = update_metric name labels (λ n. n + duration) duration (some m) ms in
    observe_count name labels (JsMap.get (count_name name) summed) summed

unfoldable pub record_observe_histogram : String → ℕ → Labels → Metrics → Metrics
unfolding observe observe_count update_metric increment_counter
record_observe_histogram name duration labels ms =
    observe name duration labels (JsMap.get name ms) ms

value_of : Option MetricValue → ℕ
value_of none = 0
value_of (some v) = v.value

metric_value : Labels → Option Metric → ℕ
metric_value labels none = 0
metric_value labels (some m) = value_of (find (has_labels labels) m.values)

unfoldable pub get_metric_value : String → Labels → Metrics → ℕ
unfolding metric_value value_of
get_metric_value name labels ms = metric_value labels (JsMap.get name ms)

abbrev default_metrics : List Metric
default_metrics =
    record {
      name = "http_requests_total";
      help = "Total number of HTTP requests processed";
      type = counter;
      values = [];
    }
    ∷ record {
      name = "http_request_duration_seconds";
      help = "HTTP request duration in seconds";
      type = histogram;
      values = [];
    }
    ∷ record {
      name = "http_requests_in_flight";
      help = "Current number of HTTP requests being processed";
      type = gauge;
      values = [];
    }
    ∷ record {
      name = "http_errors_total";
      help = "Total number of HTTP requests resulting in 4xx or 5xx errors";
      type = counter;
      values = [];
    }
    ∷ record {
      name = "process_cpu_usage_ratio";
      help = "Current process CPU usage ratio (0.0 to 1.0 per core)";
      type = gauge;
      values = [];
    }
    ∷ record {
      name = "process_memory_rss_bytes";
      help = "Process resident set size memory in bytes";
      type = gauge;
      values = [];
    }
    ∷ record {
      name = "process_memory_heap_used_bytes";
      help = "Process heap memory used in bytes";
      type = gauge;
      values = [];
    }
    ∷ record {
      name = "process_memory_heap_total_bytes";
      help = "Process total heap memory allocated in bytes";
      type = gauge;
      values = [];
    }
    ∷ record {
      name = "process_uptime_seconds";
      help = "Node.js process uptime in seconds";
      type = gauge;
      values = [];
    }
    ∷ record {
      name = "system_memory_total_bytes";
      help = "Total system memory in bytes";
      type = gauge;
      values = [];
    }
    ∷ record {
      name = "system_memory_free_bytes";
      help = "Free system memory in bytes";
      type = gauge;
      values = [];
    }
    ∷ record {
      name = "astraport_portfolio_analyses_total";
      help = "Total portfolio analysis requests processed";
      type = counter;
      values = [];
    }
    ∷ record {
      name = "astraport_rebalancing_executions_total";
      help = "Total portfolio rebalancing execution attempts by status";
      type = counter;
      values = [];
    }
    ∷ record {
      name = "astraport_rebalancing_schedule_count";
      help = "Current count of active rebalancing schedules";
      type = gauge;
      values = [];
    }
    ∷ record {
      name = "astraport_risk_evaluations_total";
      help = "Total risk evaluations performed";
      type = counter;
      values = [];
    }
    ∷ record {
      name = "astraport_risk_score_last";
      help = "Most recently calculated risk score";
      type = gauge;
      values = [];
    }
    ∷ record {
      name = "astraport_contract_invocations_total";
      help = "Total Soroban smart contract invocations";
      type = counter;
      values = [];
    }
    ∷ record {
      name = "astraport_active_subscriptions";
      help = "Total active user/event subscriptions";
      type = gauge;
      values = [];
    }
    ∷ record {
      name = "astraport_ai_triggers_active";
      help = "Total active AI triggers registered";
      type = gauge;
      values = [];
    }
    ∷ []

register_all : List Metric → Metrics → Metrics
register_all [] ms = ms
register_all (m ∷ rest) ms = register_all rest (register_metric m ms)

-- `initializeDefaultMetrics`
unfoldable pub initial_metrics : Metrics
unfolding register_all register_metric JsMap.set
initial_metrics = register_all default_metrics []

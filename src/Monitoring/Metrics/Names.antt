-- ===== src/Monitoring/Metrics/Names.antt =====
-- Recording never registers a metric.
use atraport_api.Prelude.{
  ℕ, ◌+◌, String, Option, none, some, List, [], ◌∷◌, ◌≡◌, refl, Option-cases, inl, inr,
}
use atraport_api.Prelude.JsMap
use atraport_api.Prelude.JsMap.{get-set, get-set_present_none}
use atraport_api.Monitoring.Metrics.{
  Labels, Metric, Metrics, update_metric, increment_counter, set_gauge, observe, observe_count,
  count_name, record_observe_histogram, get_metric_value, initial_metrics,
}

-- A call that the other services make.
pub data Recording : Type 0 where
  increment : String → Labels → ℕ → Recording
  gauge : String → ℕ → Labels → Recording
  observation : String → ℕ → Labels → Recording

pub apply : Recording → Metrics → Metrics
apply (increment name l n) ms = increment_counter name l n ms
apply (gauge name n l) ms = set_gauge name n l ms
apply (observation name n l) ms = record_observe_histogram name n l ms

pub apply_all : List Recording → Metrics → Metrics
apply_all [] ms = ms
apply_all (r ∷ rs) ms = apply_all rs (apply r ms)

update_metric_missing :
    (j name : String) (l : Labels) (change : ℕ → ℕ) (first : ℕ) (ms : Metrics)
    → JsMap.get j ms ≡ none
    → JsMap.get j (update_metric name l change first (JsMap.get name ms) ms) ≡ none
update_metric_missing j name l change first ms h = elim (Option-cases (JsMap.get name ms)) [
  | inl missing ↦ rw missing (unfold update_metric in h)
  | inr found ↦
      rw found.1 (unfold update_metric in get-set_present_none name j _ found.0 ms found.1 h)
]

increment_counter_missing :
    (j name : String) (l : Labels) (n : ℕ) (ms : Metrics)
    → JsMap.get j ms ≡ none
    → JsMap.get j (increment_counter name l n ms) ≡ none
increment_counter_missing j name l n ms h =
    unfold increment_counter in update_metric_missing j name l (λ k. k + n) n ms h

observe_missing :
    (j name : String) (n : ℕ) (l : Labels) (found : Option Metric) (ms : Metrics)
    → found ≡ JsMap.get name ms
    → JsMap.get j ms ≡ none
    → JsMap.get j (observe name n l found ms) ≡ none
unfolding observe
observe_missing j name n l none ms e h = h
observe_missing j name n l (some m) ms e h =
    let summed = update_metric name l (λ k. k + n) n (some m) ms in
    let absent : JsMap.get j summed ≡ none =
      rw e (update_metric_missing j name l (λ k. k + n) n ms h) in
    elim (Option-cases (JsMap.get (count_name name) summed)) [
      | inl missing ↦ rw missing (unfold observe_count in absent)
      | inr found ↦
          rw found.1 (
            unfold observe_count in increment_counter_missing j (count_name name) l 1 summed absent)
    ]

apply_missing :
    (j : String) (r : Recording) (ms : Metrics)
    → JsMap.get j ms ≡ none
    → JsMap.get j (apply r ms) ≡ none
unfolding apply
apply_missing j (increment name l n) ms h = increment_counter_missing j name l n ms h
apply_missing j (gauge name n l) ms h =
    unfold set_gauge in update_metric_missing j name l (λ k. n) n ms h
apply_missing j (observation name n l) ms h =
    unfold record_observe_histogram in observe_missing j name n l (JsMap.get name ms) ms refl h

-- No sequence of recordings registers a metric: what is not registered reads 0 from then on, for
-- all labels.
pub get-apply_all_missing :
    (j : String) (l : Labels) (rs : List Recording) (ms : Metrics)
    → JsMap.get j ms ≡ none
    → get_metric_value j l (apply_all rs ms) ≡ 0
unfolding apply_all get_metric_value
get-apply_all_missing j l [] ms h = rw h
get-apply_all_missing j l (r ∷ rs) ms h =
    get-apply_all_missing j l rs (apply r ms) (apply_missing j r ms h)

-- The registry that the service starts with has no counter for the observations of its one
-- histogram, so whatever is recorded the number of observed requests reads 0.
pub observed_requests_lost :
    (l : Labels) (rs : List Recording)
    → get_metric_value (count_name "http_request_duration_seconds") l (apply_all rs initial_metrics)
      ≡ 0
observed_requests_lost l rs =
    get-apply_all_missing (count_name "http_request_duration_seconds") l rs initial_metrics
      (unfold initial_metrics JsMap.get in refl)

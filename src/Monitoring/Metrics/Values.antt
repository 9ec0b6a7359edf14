-- ===== src/Monitoring/Metrics/Values.antt =====
-- Counters count and gauges hold what was set, for each metric and each set of labels.
use atraport_api.Prelude.{
  ℕ, ◌+◌, String, true, some, List, [], ◌∷◌, ◌≡◌, refl, ◌≢◌, arith, find, all, opt_eq, opt_eq_iff,
  eq_refl, eq-false_of_ne,
}
use atraport_api.Prelude.JsMap
use atraport_api.Prelude.JsMap.{JsMap, get-set}
use atraport_api.Monitoring.Metrics.{
  Labels, MetricValue, Metric, Metrics, are_labels_equal, has_labels, update_value,
  increment_counter, set_gauge, get_metric_value, value_of,
}

all-opt_eq :
    (l : Labels) (ks : List String)
    → all (λ key. opt_eq (JsMap.get key l) (JsMap.get key l)) ks ≡ true
all-opt_eq l [] = refl
all-opt_eq l (k ∷ ks) = rw ((opt_eq_iff (JsMap.get k l) (JsMap.get k l)).1 refl) (all-opt_eq l ks)

pub are_labels_equal_refl : (l : Labels) → are_labels_equal l l ≡ true
unfolding are_labels_equal
are_labels_equal_refl l = ground (arith, all-opt_eq l (JsMap.keys l))

find-update_value :
    (l : Labels) (change : ℕ → ℕ) (first : ℕ) (vs : List MetricValue)
    → change 0 ≡ first
    → value_of (find (has_labels l) (update_value l change first vs))
      ≡ change (value_of (find (has_labels l) vs))
unfolding update_value value_of
find-update_value l change first [] e = ground (arith, are_labels_equal_refl l)
find-update_value l change first (v ∷ vs) e = ground (arith, find-update_value l change first vs)

module _ (name : String) (l : Labels) (ms : Metrics) (m : Metric)
    (registered : JsMap.get name ms ≡ some m) where
  -- Of a registered counter the value for the labels grows by the amount; no other metric changes.
  pub get-increment_counter :
      (amount : ℕ)
      → (get_metric_value name l (increment_counter name l amount ms)
          ≡ get_metric_value name l ms + amount)
        × ((other : String) (l' : Labels)
            → name ≢ other
            → get_metric_value other l' (increment_counter name l amount ms)
              ≡ get_metric_value other l' ms)
  unfolding get_metric_value increment_counter
  get-increment_counter amount = (
    rw registered (
        rw get-set (
          rw (eq_refl name) (find-update_value l (λ n. n + amount) amount m.values (omega arith)))),
    λ other l' ne. rw registered (rw get-set (rw (eq-false_of_ne name other ne))),
  )

  -- Of a registered gauge the value for the labels is the one set; no other metric changes.
  pub get-set_gauge :
      (value : ℕ)
      → (get_metric_value name l (set_gauge name value l ms) ≡ value)
        × ((other : String) (l' : Labels)
            → name ≢ other
            → get_metric_value other l' (set_gauge name value l ms) ≡ get_metric_value other l' ms)
  unfolding get_metric_value set_gauge
  get-set_gauge value = (
    rw registered
        (rw get-set (rw (eq_refl name) (find-update_value l (λ n. value) value m.values refl))),
    λ other l' ne. rw registered (rw get-set (rw (eq-false_of_ne name other ne))),
  )

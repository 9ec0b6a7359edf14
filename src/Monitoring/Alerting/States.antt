-- ===== src/Monitoring/Alerting/States.antt =====
-- Which rules are firing after an evaluation.
use atraport_api.Prelude.{
  ℕ, String, Bool, true, false, not, ◌&&◌, ◌||◌, Option, none, some, ◌≡◌, refl, ap, ◌∙◌, arith,
  eq_refl, ltb, leb, Bool-cases, inl, inr,
}
use text.Mathlib.Text.{◌==◌}
use atraport_api.Prelude.JsMap
use atraport_api.Prelude.JsMap.{JsMap, get-set}
use atraport_api.Monitoring.Rules.{AlertRule, is_firing}
use atraport_api.Monitoring.Alerting.{
  AlertingService, Readings, fire_alert, resolve_alert, evaluate_found, evaluate_rule, is_down,
  error_rate_fires, error_rate_clears, evaluate_rules,
}

-- The rule is there, under its own id, and enabled.
abbrev pub IsOn : String → AlertRule → AlertingService → Type 0
IsOn id r s = (JsMap.get id s.rules ≡ some r) × (r.id ≡ id) × (r.enabled ≡ true)

abbrev pub is_firing_found : Option AlertRule → Bool
is_firing_found none = false
is_firing_found (some r) = is_firing r.state

abbrev pub is_firing_in : String → AlertingService → Bool
is_firing_in id s = is_firing_found (JsMap.get id s.rules)

module _ (id : String) (fires clears : AlertRule → Bool) (value now : ℕ)
    (new_id : String → String) where
  abbrev pub evaluated : AlertingService → AlertingService
  evaluated s = evaluate_rule id fires clears value now new_id s

  abbrev pub seen : AlertRule → AlertRule
  seen r = record r { last_evaluated_at = some now }

  evaluate_own :
      (r : AlertRule) (s : AlertingService)
      → IsOn id r s
      → is_firing_in id (evaluated s)
        ≡ (fires (seen r) || is_firing r.state && not (clears (seen r)))
  unfolding evaluate_rule evaluate_found fire_alert resolve_alert
  evaluate_own r s (here, own, enabled) = elim (Bool-cases (fires (seen r))) [
    | inl on ↦ rw (here, on, enabled) (rw (get-set, own, eq_refl id) refl)
    | inr off ↦ elim (Bool-cases (is_firing r.state)) [
      | inl was ↦ elim (Bool-cases (clears (seen r))) [
        | inl done ↦ rw (here, off, was, done, enabled) ((rw (get-set, own, eq_refl id) refl))
        | inr still ↦ rw (here, off, was, still, enabled) ((rw (get-set, own, eq_refl id) was))
      ]
      | inr idle ↦ rw (here, off, idle, enabled) ((rw (get-set, own, eq_refl id) idle))
    ]
  ]

  evaluate_other :
      (r : AlertRule) (other : String) (s : AlertingService)
      → IsOn id r s
      → (id == other) ≡ false
      → JsMap.get other (evaluated s).rules ≡ JsMap.get other s.rules
  unfolding evaluate_rule evaluate_found fire_alert resolve_alert
  evaluate_other r other s (here, own, enabled) differs = elim (Bool-cases (fires (seen r))) [
    | inl on ↦ rw (here, on, enabled) (rw (own, get-set, differs) (rw (get-set, differs) refl))
    | inr off ↦ elim (Bool-cases (is_firing r.state && clears (seen r))) [
      | inl done ↦
          rw (here, off, done, enabled) (rw (own, get-set, differs) (rw (get-set, differs) refl))
      | inr still ↦ rw (here, off, still, enabled) (rw (get-set, own, differs) refl)
    ]
  ]

abbrev pub error_rate : String
error_rate = "high-error-rate"

abbrev pub latency : String
latency = "high-latency-p95"

abbrev pub memory : String
memory = "high-memory-usage"

abbrev pub database : String
database = "database-disconnected"

abbrev pub rebalancing : String
rebalancing = "rebalancing-failure-spike"

evaluate_keeps :
    (id : String) (fires clears : AlertRule → Bool) (value now : ℕ) (new_id : String → String)
    (r r' : AlertRule) (other : String) (s : AlertingService)
    → IsOn id r s
    → (id == other) ≡ false
    → IsOn other r' s
    → IsOn other r' (evaluated id fires clears value now new_id s)
evaluate_keeps id fires clears value now new_id r r' other s on differs (here, own, enabled) =
    (evaluate_other id fires clears value now new_id r other s on differs ∙ here, own, enabled)

firing-other :
    (id : String) (fires clears : AlertRule → Bool) (value now : ℕ) (new_id : String → String)
    (r : AlertRule) (other : String) (s : AlertingService)
    → IsOn id r s
    → (id == other) ≡ false
    → is_firing_in other (evaluated id fires clears value now new_id s) ≡ is_firing_in other s
firing-other id fires clears value now new_id r other s on differs =
    ap is_firing_found (evaluate_other id fires clears value now new_id r other s on differs)

-- The five default rules are there, under their ids, and enabled.
abbrev pub AreOn : (r1 r2 r3 r4 r5 : AlertRule) → AlertingService → Type 0
AreOn r1 r2 r3 r4 r5 s =
    IsOn error_rate r1 s
    × IsOn latency r2 s
    × IsOn memory r3 s
    × IsOn database r4 s
    × IsOn rebalancing r5 s

above_or_held :
    (many was : Bool) (rate threshold : ℕ)
    → (many && ltb threshold rate || was && not (leb rate threshold))
      ≡ ((many || was) && ltb threshold rate)
above_or_held many was rate threshold = ground arith

above :
    (was : Bool) (reading threshold : ℕ)
    → (ltb threshold reading || was && not (leb reading threshold)) ≡ ltb threshold reading
above was reading threshold = ground arith

at_least :
    (was : Bool) (reading threshold : ℕ)
    → (leb threshold reading || was && not (ltb reading threshold)) ≡ leb threshold reading
at_least was reading threshold = ground arith

now_down : (was down : Bool) → (down || was && not true) ≡ down
now_down was down = ground arith

module _ (readings : Readings) (now : ℕ) (new_id : String → String) where
  -- The five blocks of `evaluateRules`.
  abbrev stage1 : AlertingService → AlertingService
  stage1 s =
      evaluated error_rate (error_rate_fires readings) (error_rate_clears readings)
        readings.error_rate_percentage now new_id s

  abbrev stage2 : AlertingService → AlertingService
  stage2 s =
      evaluated latency (λ r. ltb r.threshold readings.latency_p95)
        (λ r. leb readings.latency_p95 r.threshold) readings.latency_p95 now new_id s

  abbrev stage3 : AlertingService → AlertingService
  stage3 s =
      evaluated memory (λ r. ltb r.threshold readings.heap_used_percent)
        (λ r. leb readings.heap_used_percent r.threshold) readings.heap_used_percent now new_id s

  abbrev stage4 : AlertingService → AlertingService
  stage4 s = evaluated database (λ r. is_down readings.database) (λ r. true) 0 now new_id s

  abbrev stage5 : AlertingService → AlertingService
  stage5 s =
      evaluated rebalancing (λ r. leb r.threshold readings.failed_rebalancings)
        (λ r. ltb readings.failed_rebalancings r.threshold) readings.failed_rebalancings now new_id
        s

-- After an evaluation of the five rules, all enabled, the latency, memory and failure rules are firing
-- exactly if their reading is above the threshold, for the failures also at it; the database rule exactly
-- if the database is down; and the error rate rule if the rate is above its threshold with ten requests
-- or more, or if it was firing before and the rate is still above.
pub firing-evaluate_rules :
    (readings : Readings) (now : ℕ) (new_id : String → String) (r1 r2 r3 r4 r5 : AlertRule)
    (s : AlertingService)
    → AreOn r1 r2 r3 r4 r5 s
    → let after = evaluate_rules readings now new_id s in
      (is_firing_in error_rate after
        ≡ (leb 10 readings.total_requests || is_firing r1.state)
          && ltb r1.threshold readings.error_rate_percentage)
      × (is_firing_in latency after ≡ ltb r2.threshold readings.latency_p95)
      × (is_firing_in memory after ≡ ltb r3.threshold readings.heap_used_percent)
      × (is_firing_in database after ≡ is_down readings.database)
      × (is_firing_in rebalancing after ≡ leb r5.threshold readings.failed_rebalancings)
unfolding evaluate_rules
firing-evaluate_rules readings now new_id r1 r2 r3 r4 r5 s (on1, on2, on3, on4, on5) =
    let s1 = stage1 readings now new_id s in
    let s2 = stage2 readings now new_id s1 in
    let s3 = stage3 readings now new_id s2 in
    let s4 = stage4 readings now new_id s3 in
    let p2 : IsOn latency r2 s1 =
      evaluate_keeps error_rate _ _ _ now new_id r1 r2 latency s on1 refl on2 in
    let p3 : IsOn memory r3 s2 =
      evaluate_keeps latency _ _ _ now new_id r2 r3 memory s1 p2 refl
        (evaluate_keeps error_rate _ _ _ now new_id r1 r3 memory s on1 refl on3) in
    let q4 : IsOn database r4 s2 =
      evaluate_keeps latency _ _ _ now new_id r2 r4 database s1 p2 refl
        (evaluate_keeps error_rate _ _ _ now new_id r1 r4 database s on1 refl on4) in
    let q5 : IsOn rebalancing r5 s2 =
      evaluate_keeps latency _ _ _ now new_id r2 r5 rebalancing s1 p2 refl
        (evaluate_keeps error_rate _ _ _ now new_id r1 r5 rebalancing s on1 refl on5) in
    let p4 : IsOn database r4 s3 =
      evaluate_keeps memory _ _ _ now new_id r3 r4 database s2 p3 refl q4 in
    let p5 : IsOn rebalancing r5 s4 =
      evaluate_keeps database _ _ _ now new_id r4 r5 rebalancing s3 p4 refl
        (evaluate_keeps memory _ _ _ now new_id r3 r5 rebalancing s2 p3 refl q5) in
    (
      firing-other rebalancing _ _ _ now new_id r5 error_rate s4 p5 refl
          ∙ firing-other database _ _ _ now new_id r4 error_rate s3 p4 refl
          ∙ firing-other memory _ _ _ now new_id r3 error_rate s2 p3 refl
          ∙ firing-other latency _ _ _ now new_id r2 error_rate s1 p2 refl
          ∙ evaluate_own error_rate _ _ _ now new_id r1 s on1
          ∙ above_or_held (leb 10 readings.total_requests) (is_firing r1.state)
              readings.error_rate_percentage r1.threshold,
      firing-other rebalancing _ _ _ now new_id r5 latency s4 p5 refl
          ∙ firing-other database _ _ _ now new_id r4 latency s3 p4 refl
          ∙ firing-other memory _ _ _ now new_id r3 latency s2 p3 refl
          ∙ evaluate_own latency _ _ _ now new_id r2 s1 p2
          ∙ above (is_firing r2.state) readings.latency_p95 r2.threshold,
      firing-other rebalancing _ _ _ now new_id r5 memory s4 p5 refl
          ∙ firing-other database _ _ _ now new_id r4 memory s3 p4 refl
          ∙ evaluate_own memory _ _ _ now new_id r3 s2 p3
          ∙ above (is_firing r3.state) readings.heap_used_percent r3.threshold,
      firing-other rebalancing _ _ _ now new_id r5 database s4 p5 refl
          ∙ evaluate_own database _ _ _ now new_id r4 s3 p4
          ∙ now_down (is_firing r4.state) (is_down readings.database),
      evaluate_own rebalancing _ _ _ now new_id r5 s4 p5
          ∙ at_least (is_firing r5.state) readings.failed_rebalancings r5.threshold,
    )

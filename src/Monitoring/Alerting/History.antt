-- ===== src/Monitoring/Alerting/History.antt =====
-- The history of the alerts: its length, and which of its alerts are resolved.
use atraport_api.Prelude.{
  ℕ, suc, ◌+◌, ◌-◌, ◌≤◌, ◌<◌, String, Bool, Option, none, some, List, [], ◌∷◌, ◌≡◌, refl, ap, ◌∙◌,
  arith, eq_refl, max, length, filter,
}
use atraport_api.Prelude.JsMap
use atraport_api.Prelude.JsMap.{JsMap}
use atraport_api.Monitoring.Rules.{AlertRule}
use atraport_api.Monitoring.Alerting.{
  FiredAlert, AlertingService, Readings, pop, push_alert, alert_of, fire_alert, is_active,
  resolve_first, resolve_alert, evaluate_found, evaluate_rule, evaluate_rules, trigger_test_alert,
}

length-pop {ℓ} : {A : Type ℓ} (xs : List A) → length (pop xs) ≡ length xs - 1
unfolding pop
length-pop [] = omega arith
length-pop (x ∷ []) = omega arith
length-pop (x ∷ (y ∷ ys)) = omega (arith, length-pop (y ∷ ys))

length-push_alert :
    (a : FiredAlert) (history : List FiredAlert)
    → length (push_alert a history) ≤ max 500 (length history)
unfolding push_alert
length-push_alert a history = ground (arith, length-pop (a ∷ history))

length-resolve_first :
    (id : String) (now : ℕ) (history : List FiredAlert)
    → length (resolve_first id now history).0 ≡ length history
unfolding resolve_first
length-resolve_first id now [] = refl
length-resolve_first id now (a ∷ rest) = ground (arith, length-resolve_first id now rest)

length-evaluate :
    (o : Option AlertRule) (fires clears : AlertRule → Bool) (value now : ℕ)
    (new_id : String → String) (m : ℕ) (s : AlertingService)
    → 500 ≤ m
    → length s.fired_alerts_history ≤ m
    → length (evaluate_found o fires clears value now new_id s).fired_alerts_history ≤ m
unfolding evaluate_found fire_alert resolve_alert
length-evaluate none fires clears value now new_id m s large h = h
length-evaluate (some r) fires clears value now new_id m s large h =
    let seen = record r { last_evaluated_at = some now } in
    ground (
      arith,
      length-push_alert (alert_of seen value now (new_id r.id)) s.fired_alerts_history,
      length-resolve_first r.id now s.fired_alerts_history,
    )

length-evaluate_rule :
    (id : String) (fires clears : AlertRule → Bool) (value now : ℕ) (new_id : String → String)
    (m : ℕ) (s : AlertingService)
    → 500 ≤ m
    → length s.fired_alerts_history ≤ m
    → length (evaluate_rule id fires clears value now new_id s).fired_alerts_history ≤ m
unfolding evaluate_rule
length-evaluate_rule id fires clears value now new_id m s large h =
    length-evaluate (JsMap.get id s.rules) fires clears value now new_id m s large h

-- An evaluation of the rules leaves at most 500 alerts in the history, or as many as there were, but a
-- test alert always makes it one longer.
pub length-history :
    (readings : Readings) (now : ℕ) (new_id : String → String) (id : String) (s : AlertingService)
    → (length (evaluate_rules readings now new_id s).fired_alerts_history
        ≤ max 500 (length s.fired_alerts_history))
      × (length (trigger_test_alert now id s).1.fired_alerts_history
          ≡ suc (length s.fired_alerts_history))
unfolding evaluate_rules trigger_test_alert
length-history readings now new_id id s =
    let m = max 500 (length s.fired_alerts_history) in
    let large : 500 ≤ m = omega arith in
    let start : length s.fired_alerts_history ≤ m = omega arith in
    (
      length-evaluate_rule _ _ _ _ now new_id m _ large (
          length-evaluate_rule _ _ _ _ now new_id m _ large (
            length-evaluate_rule _ _ _ _ now new_id m _ large (
              length-evaluate_rule _ _ _ _ now new_id m _ large
                (length-evaluate_rule _ _ _ _ now new_id m s large start)))),
      refl,
    )

-- The alerts of the rule that are not resolved.
abbrev pub active : String → List FiredAlert → ℕ
active id history = length (filter (is_active id) history)

active-resolve_first :
    (id : String) (now : ℕ) (history : List FiredAlert)
    → active id (resolve_first id now history).0 ≡ active id history - 1
unfolding resolve_first is_active
active-resolve_first id now [] = omega arith
active-resolve_first id now (a ∷ rest) = ground (arith, active-resolve_first id now rest)

active-fire_alert :
    (r : AlertRule) (value now : ℕ) (id : String) (s : AlertingService)
    → length s.fired_alerts_history < 500
    → (active r.id (fire_alert r value now id s).fired_alerts_history
        ≡ suc (active r.id s.fired_alerts_history))
      × (length (fire_alert r value now id s).fired_alerts_history
          ≡ suc (length s.fired_alerts_history))
unfolding fire_alert push_alert alert_of is_active
active-fire_alert r value now id s room = ground (arith, eq_refl r.id)

-- The rule fires once at each of the times.
abbrev pub fire_at : AlertRule → ℕ → List ℕ → String → AlertingService → AlertingService
fire_at r value [] id s = s
fire_at r value (now ∷ later) id s = fire_at r value later id (fire_alert r value now id s)

active-fire_at :
    (r : AlertRule) (value : ℕ) (times : List ℕ) (id : String) (s : AlertingService)
    → length s.fired_alerts_history + length times ≤ 500
    → active r.id (fire_at r value times id s).fired_alerts_history
      ≡ active r.id s.fired_alerts_history + length times
active-fire_at r value [] id s room = omega arith
active-fire_at r value (now ∷ later) id s room =
    let (one_more, longer) = active-fire_alert r value now id s (omega (arith, room)) in
    let rest =
      active-fire_at r value later id (fire_alert r value now id s) (omega (arith, room, longer)) in
    omega (arith, one_more, rest)

-- A rule that fires at several evaluations before it is resolved, while the history has room, enters an
-- alert at each of them, and the resolution marks only one of the rule's unresolved alerts.
pub active-resolve_alert :
    (r : AlertRule) (value : ℕ) (times : List ℕ) (id : String) (now : ℕ) (s : AlertingService)
    → length s.fired_alerts_history + length times ≤ 500
    → active r.id (resolve_alert r now (fire_at r value times id s)).fired_alerts_history
      ≡ active r.id s.fired_alerts_history + length times - 1
unfolding resolve_alert
active-resolve_alert r value times id now s room =
    active-resolve_first r.id now (fire_at r value times id s).fired_alerts_history
    ∙ ap (λ n. n - 1) (active-fire_at r value times id s room)

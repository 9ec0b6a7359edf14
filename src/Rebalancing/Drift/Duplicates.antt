-- ===== src/Rebalancing/Drift/Duplicates.antt =====
-- No asset has two open alerts of one severity, whatever operations come after one another.
use atraport_api.Prelude.{
  ℕ, ◌+◌, String, Bool, true, false, not, ◌&&◌, Option, none, some, List, [], ◌∷◌, ◌≡◌, refl, arith,
  any, eq_iff, Bool-cases, inl, inr,
}
use atraport_api.Prelude.JsMap
use atraport_api.Prelude.JsMap.{JsMap, Every}
use atraport_api.Rebalancing.Drift.{
  Severity, warning, critical, AssetAllocation, AssetDrift, DriftConfig,
}
use atraport_api.Rebalancing.Drift.Service.{
  DriftAlert, DriftEvent, DriftWebhook, DriftCalculator, ConfigChange, new_calculator,
  create_config, update_found, update_config, persist_snapshot, same_severity, is_duplicate,
  alert_of, raise_alert, generate_alerts, calculate_drift, acknowledge_found, acknowledge_alert,
  register_webhook, settled,
}
use text.Mathlib.Text.{◌==◌}

-- Two alerts that are both open, of one asset of a portfolio and of one severity.
abbrev pub is_twin : DriftAlert → DriftAlert → Bool
is_twin a b =
    a.portfolio_id == b.portfolio_id
    && a.affected_asset == b.affected_asset
    && same_severity a.severity b.severity
    && not a.acknowledged
    && not b.acknowledged

abbrev pub NoTwins : JsMap DriftAlert → Type 0
NoTwins [] = Unit
NoTwins ((k, a) ∷ m) = Every (λ b. is_twin a b ≡ false) m × NoTwins m

same_severity_sym : (a b : Severity) → same_severity a b ≡ same_severity b a
same_severity_sym warning warning = refl
same_severity_sym warning critical = refl
same_severity_sym critical warning = refl
same_severity_sym critical critical = refl

is_twin_sym : (a b : DriftAlert) → is_twin a b ≡ false → is_twin b a ≡ false
is_twin_sym a b h = ground (
  arith,
  eq_iff a.portfolio_id b.portfolio_id,
  eq_iff b.portfolio_id a.portfolio_id,
  eq_iff a.affected_asset b.affected_asset,
  eq_iff b.affected_asset a.affected_asset,
  same_severity_sym a.severity b.severity,
)

all_sym :
    (x : DriftAlert) (m : JsMap DriftAlert)
    → Every (λ b. is_twin b x ≡ false) m
    → Every (λ b. is_twin x b ≡ false) m
all_sym x [] h = tt
all_sym x ((k, a) ∷ m) (h, hs) = (is_twin_sym a x h, all_sym x m hs)

set-NoTwins :
    (k : String) (x : DriftAlert) (m : JsMap DriftAlert)
    → Every (λ b. is_twin b x ≡ false) m
    → NoTwins m
    → NoTwins (JsMap.set k x m)
unfolding JsMap.set
set-NoTwins k x [] h d = (tt, tt)
set-NoTwins k x ((j, a) ∷ m) (h, hs) (d, ds) = elim (Bool-cases (j == k)) [
  | inl same ↦ rw same (all_sym x m hs, ds)
  | inr other ↦
      rw other (JsMap.set-Every (λ b. is_twin a b ≡ false) k x m h d, set-NoTwins k x m hs ds)
]

not_twin_of_settled :
    (x : DriftAlert)
    → x.acknowledged ≡ true
    → (m : JsMap DriftAlert) → Every (λ b. is_twin b x ≡ false) m
not_twin_of_settled x e [] = tt
not_twin_of_settled x e ((k, a) ∷ m) = (ground arith, not_twin_of_settled x e m)

module _ (portfolio_id : String) (now : ℕ) (limits : ℕ × ℕ)
    (subscriptions : List DriftWebhook) where
  no_twin_of_new :
      (id : String) (asset : AssetDrift) (severity : Severity) (m : JsMap DriftAlert)
      → any (is_duplicate portfolio_id asset.symbol severity) (JsMap.values m) ≡ false
      → Every (λ b. is_twin b (alert_of portfolio_id now limits id asset severity) ≡ false) m
  unfolding is_duplicate
  no_twin_of_new id asset severity [] h = tt
  no_twin_of_new id asset severity ((k, a) ∷ m) h =
      (ground arith, no_twin_of_new id asset severity m (ground arith))

  raise-NoTwins :
      (id : String) (asset : AssetDrift) (status : Option Severity) (m : JsMap DriftAlert)
      → NoTwins m
      → NoTwins (raise_alert portfolio_id now limits subscriptions id asset status m).0
  unfolding raise_alert
  raise-NoTwins id asset none m d = d
  raise-NoTwins id asset (some severity) m d =
      elim (Bool-cases (any (is_duplicate portfolio_id asset.symbol severity) (JsMap.values m))) [
        | inl found ↦ rw found d
        | inr fresh ↦ rw fresh (set-NoTwins id _ m (no_twin_of_new id asset severity m fresh) d)
      ]

  generate-NoTwins :
      (ids : ℕ → String) (i : ℕ) (assets : List AssetDrift) (m : JsMap DriftAlert)
      → NoTwins m
      → NoTwins (generate_alerts portfolio_id now limits subscriptions ids i assets m).0
  unfolding generate_alerts
  generate-NoTwins ids i [] m d = d
  generate-NoTwins ids i (asset ∷ rest) m d =
      generate-NoTwins ids (i + 1) rest _ (raise-NoTwins (ids i) asset asset.status m d)

-- A call of the service that may change its state.
pub data Operation : Type 0 where
  creates : String → ℕ → ℕ → Option String → Bool → Operation
  updates : String → ConfigChange → Operation
  calculates : String → List AssetAllocation → String → (ℕ → String) → Operation
  acknowledges : String → Option String → Operation
  registers : String → String → String → List DriftEvent → Option String → Operation

abbrev pub perform : Operation → ℕ → DriftCalculator → DriftCalculator
perform (creates id low high url enabled) now s = (create_config id low high url enabled now s).1
perform (updates id change) now s = (update_config id change now s).1
perform (calculates id assets snapshot_id ids) now s =
    (calculate_drift id assets snapshot_id ids now s).2
perform (acknowledges id by) now s = (acknowledge_alert id by now s).1
perform (registers id portfolio_id url events secret) now s =
    (register_webhook id portfolio_id url events secret now s).1

-- The operations in turn, each at its time.
abbrev pub run : List (ℕ × Operation) → DriftCalculator → DriftCalculator
run [] s = s
run ((now, op) ∷ ops) s = run ops (perform op now s)

acknowledge-NoTwins :
    (id : String) (by : Option String) (now : ℕ) (s : DriftCalculator) (found : Option DriftAlert)
    → NoTwins s.alerts
    → NoTwins (acknowledge_found id by now s found).1.alerts
acknowledge-NoTwins id by now s none d = d
acknowledge-NoTwins id by now s (some alert) d =
    set-NoTwins id (settled by now alert) s.alerts
      (not_twin_of_settled (settled by now alert) refl s.alerts) d

update-alerts :
    (id : String) (change : ConfigChange) (now : ℕ) (s : DriftCalculator)
    (found : Option DriftConfig)
    → (update_found id change now s found).1.alerts ≡ s.alerts
update-alerts id change now s none = refl
update-alerts id change now s (some existing) = refl

perform-NoTwins :
    (op : Operation) (now : ℕ) (s : DriftCalculator)
    → NoTwins s.alerts
    → NoTwins (perform op now s).alerts
unfolding create_config update_config calculate_drift persist_snapshot acknowledge_alert
    register_webhook
perform-NoTwins (creates id low high url enabled) now s d = d
perform-NoTwins (updates id change) now s d =
    rw (update-alerts id change now s (JsMap.get id s.configs)) d
perform-NoTwins (calculates id assets snapshot_id ids) now s d =
    generate-NoTwins id now _ _ ids 0 _ s.alerts d
perform-NoTwins (acknowledges id by) now s d =
    acknowledge-NoTwins id by now s (JsMap.get id s.alerts) d
perform-NoTwins (registers id portfolio_id url events secret) now s d = d

run-NoTwins_from :
    (ops : List (ℕ × Operation)) (s : DriftCalculator)
    → NoTwins s.alerts
    → NoTwins (run ops s).alerts
run-NoTwins_from [] s d = d
run-NoTwins_from ((now, op) ∷ ops) s d = run-NoTwins_from ops _ (perform-NoTwins op now s d)

-- After any operations on a new service, no two alerts that are not acknowledged are of the same asset of the
-- same portfolio and of the same severity.
pub run-NoTwins : (ops : List (ℕ × Operation)) → NoTwins (run ops new_calculator).alerts
run-NoTwins ops = run-NoTwins_from ops new_calculator tt

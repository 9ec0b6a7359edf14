-- ===== src/Subscriptions/Service/Records/Retries.antt =====
-- A delivery that always fails is given up in the end.
use atraport_api.Prelude.{
  ℕ, suc, ◌+◌, String, none, some, List, [], ◌∷◌, ◌≡◌, refl, ◌∙◌, arith, eq_refl, length, leb,
  if◌then◌else◌,
}
use mathlib.Core.Path.{subst}
use atraport_api.Prelude.JsMap
use atraport_api.Prelude.JsMap.{JsMap, Every, set-Every, retain-Every, Every-get, get-set}
use atraport_api.Subscriptions.Types.{DeliveryOutcome, DeliveryRecord, SubscriptionService}
use atraport_api.Subscriptions.Service.Records.{
  record_key, counted_record, scheduled, record_delivery_attempt,
}

-- The attempts of one delivery, each of which asks to be tried again, at the times given.
abbrev pub attempts : String → String → String → List ℕ → SubscriptionService → SubscriptionService
attempts subscription_id event_id id [] s = s
attempts subscription_id event_id id (now ∷ rest) s =
    attempts subscription_id event_id id rest
      (record_delivery_attempt subscription_id event_id DeliveryOutcome.retrying id now s).1

-- A record of `n` attempts that all asked to be tried again.
abbrev HasTried : ℕ → DeliveryRecord → Type 0
HasTried n r =
    (r.attempt_count ≡ n)
    × (r.outcome ≡ (if leb n 5 then DeliveryOutcome.retrying else DeliveryOutcome.failed))

tried_again :
    (subscription_id event_id id : String) (now n : ℕ) (r : DeliveryRecord)
    → HasTried n r
    → HasTried (n + 1) (
        scheduled DeliveryOutcome.retrying now
          (counted_record subscription_id event_id DeliveryOutcome.retrying id now (some r)))
unfolding scheduled counted_record
tried_again subscription_id event_id id now n r h = ground arith

get-attempt :
    (subscription_id event_id : String) (outcome : DeliveryOutcome) (id : String) (now : ℕ)
    (s : SubscriptionService)
    → JsMap.get
        (record_key subscription_id event_id)
        (record_delivery_attempt subscription_id event_id outcome id now s).1.delivery_records
      ≡ some (
          scheduled outcome now (
            counted_record subscription_id event_id outcome id now
              (JsMap.get (record_key subscription_id event_id) s.delivery_records)))
unfolding record_delivery_attempt
get-attempt subscription_id event_id outcome id now s =
    let key = record_key subscription_id event_id in rw (get-set, eq_refl key) refl

attempts_from :
    (subscription_id event_id id : String) (times : List ℕ) (n : ℕ) (r : DeliveryRecord)
    (s : SubscriptionService)
    → JsMap.get (record_key subscription_id event_id) s.delivery_records ≡ some r
    → HasTried n r
    → (r' : DeliveryRecord) × (JsMap.get
          (record_key subscription_id event_id)
          (attempts subscription_id event_id id times s).delivery_records
        ≡ some r')
      × HasTried (n + length times) r'
attempts_from subscription_id event_id id [] n r s here h = (r, here, (ground arith))
attempts_from subscription_id event_id id (now ∷ rest) n r s here h =
    let r' =
      scheduled DeliveryOutcome.retrying now
        (counted_record subscription_id event_id DeliveryOutcome.retrying id now (some r)) in
    let s' =
      (record_delivery_attempt subscription_id event_id DeliveryOutcome.retrying id now s).1 in
    let there : JsMap.get (record_key subscription_id event_id) s'.delivery_records ≡ some r' =
      get-attempt subscription_id event_id DeliveryOutcome.retrying id now s ∙ rw here refl in
    let after =
      attempts_from subscription_id event_id id rest (n + 1) r' s' there
        (tried_again subscription_id event_id id now n r h) in
    let same : n + 1 + length rest ≡ n + suc (length rest) = omega arith in
    (after.0, after.1, subst (λ (k : ℕ). HasTried k after.0) same after.2)

-- A new delivery that fails at every one of its attempts, has been counted once for each, and is to be
-- tried again as long as there were at most five; after the sixth it is given up as failed.
pub retries_end :
    (subscription_id event_id id : String) (now : ℕ) (later : List ℕ) (s : SubscriptionService)
    → JsMap.get (record_key subscription_id event_id) s.delivery_records ≡ none
    → (r : DeliveryRecord) × (JsMap.get
          (record_key subscription_id event_id)
          (attempts subscription_id event_id id (now ∷ later) s).delivery_records
        ≡ some r)
      × (r.attempt_count ≡ 1 + length later)
      × (r.outcome
          ≡ (if leb (1 + length later) 5 then DeliveryOutcome.retrying else DeliveryOutcome.failed))
unfolding scheduled counted_record
retries_end subscription_id event_id id now later s new =
    let r =
      scheduled DeliveryOutcome.retrying now
        (counted_record subscription_id event_id DeliveryOutcome.retrying id now none) in
    let s' =
      (record_delivery_attempt subscription_id event_id DeliveryOutcome.retrying id now s).1 in
    let there : JsMap.get (record_key subscription_id event_id) s'.delivery_records ≡ some r =
      get-attempt subscription_id event_id DeliveryOutcome.retrying id now s ∙ rw new refl in
    let after = attempts_from subscription_id event_id id later 1 r s' there (refl, refl) in
    (after.0, after.1, after.2.0, after.2.1)

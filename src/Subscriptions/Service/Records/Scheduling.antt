-- ===== src/Subscriptions/Service/Records/Scheduling.antt =====
-- When a delivery is tried again, and what the schedule keeps of it.
use atraport_api.Prelude.{
  ◌⊎◌, ℕ, ◌+◌, ◌-◌, ◌*◌, ◌^◌, ◌≤◌, String, true, false, Option, none, some, List, [], ◌∷◌, ◌≡◌,
  refl, arith, Bool-cases, inl, inr,
}
use atraport_api.Prelude.JsMap
use atraport_api.Prelude.JsMap.{JsMap, Every, set-Every, retain-Every, Every-get, get-set}
use atraport_api.Subscriptions.Types.{
  DeliveryOutcome, DeliveryRecord, CreateSubscription, UpdateSubscription, SubscriptionService,
  is_retrying, is_acknowledged,
}
use atraport_api.Subscriptions.Service.{
  create_subscription, update_subscription, delete_subscription, with_found-keeps, find_or_throw,
  is_of_another,
}
use atraport_api.Subscriptions.Service.Records.{
  record_key, counted_record, scheduled, record_delivery_attempt, acknowledge_record,
  to_acknowledge, acknowledge_one, acknowledge_loop, acknowledge_events,
}

-- The wait after the `n`-th attempt.
abbrev pub retry_delay : ℕ → ℕ
retry_delay n = 1000 * 2 ^ (n - 1)

-- A delivery that is to be tried again was tried at most five times, and has its time, a doubled delay
-- after the last attempt; any other has none.
abbrev pub IsScheduled : DeliveryRecord → Type 0
IsScheduled r =
    (1 ≤ r.attempt_count)
    × (((is_retrying r.outcome ≡ true)
          × (r.attempt_count ≤ 5)
          × (r.next_retry_at ≡ some (r.last_attempt_at + retry_delay r.attempt_count)))
        ⊎ ((is_retrying r.outcome ≡ false) × (r.next_retry_at ≡ none)))

-- What changes the service's state.
pub data Operation : Type 0 where
  create : String → CreateSubscription → String → Operation
  update : String → String → UpdateSubscription → Operation
  delete : String → String → Operation
  attempt : String → String → DeliveryOutcome → String → Operation
  acknowledge : String → String → List String → Operation

-- One operation, at a time.
abbrev pub step : Operation → ℕ → SubscriptionService → SubscriptionService
step (create user_id dto id) now s = (create_subscription user_id dto id now s).1
step (update user_id id dto) now s = (update_subscription user_id id dto now s).1
step (delete user_id id) now s = (delete_subscription user_id id s).1
step (attempt id event_id outcome record_id) now s =
    (record_delivery_attempt id event_id outcome record_id now s).1
step (acknowledge user_id id event_ids) now s = (acknowledge_events user_id id event_ids now s).1

abbrev pub run : List (Operation × ℕ) → SubscriptionService → SubscriptionService
run [] s = s
run ((operation, now) ∷ rest) s = run rest (step operation now s)

abbrev AllScheduled : SubscriptionService → Type 0
AllScheduled s = Every IsScheduled s.delivery_records

counted_new :
    (subscription_id event_id : String) (outcome : DeliveryOutcome) (id : String) (now : ℕ)
    (o : Option DeliveryRecord)
    → (1 ≤ (counted_record subscription_id event_id outcome id now o).attempt_count)
      × ((counted_record subscription_id event_id outcome id now o).last_attempt_at ≡ now)
      × ((counted_record subscription_id event_id outcome id now o).outcome ≡ outcome)
unfolding counted_record
counted_new subscription_id event_id outcome id now none = ground arith
counted_new subscription_id event_id outcome id now (some r) = ground arith

scheduled-IsScheduled :
    (outcome : DeliveryOutcome) (now : ℕ) (r : DeliveryRecord)
    → 1 ≤ r.attempt_count
    → r.last_attempt_at ≡ now
    → r.outcome ≡ outcome
    → IsScheduled (scheduled outcome now r)
unfolding scheduled
scheduled-IsScheduled outcome now r once last same = ground arith

acknowledge_one-Every :
    (key : String) (now : ℕ) (o : Option DeliveryRecord) (records : JsMap DeliveryRecord)
    → Every IsScheduled records
    → JsMap.get key records ≡ o
    → Every IsScheduled (acknowledge_one key now (to_acknowledge o) records)
unfolding acknowledge_one to_acknowledge
acknowledge_one-Every key now none records h e = h
acknowledge_one-Every key now (some r) records h e =
    let was = Every-get IsScheduled key r records h e in
    let is : IsScheduled (acknowledge_record now r) = (was.0, inr (refl, refl)) in
    elim (Bool-cases (is_acknowledged r.outcome)) [
      | inl done ↦ rw done h
      | inr waiting ↦ rw waiting (set-Every IsScheduled key (acknowledge_record now r) records is h)
    ]

acknowledge_loop-Every :
    (subscription_id : String) (now : ℕ) (event_ids : List String) (records : JsMap DeliveryRecord)
    → Every IsScheduled records
    → Every IsScheduled (acknowledge_loop subscription_id now event_ids records).1
unfolding acknowledge_loop
acknowledge_loop-Every subscription_id now [] records h = h
acknowledge_loop-Every subscription_id now (event_id ∷ rest) records h =
    let key = record_key subscription_id event_id in
    acknowledge_loop-Every subscription_id now rest
      (acknowledge_one key now (to_acknowledge (JsMap.get key records)) records)
      (acknowledge_one-Every key now (JsMap.get key records) records h refl)

attempt-Every :
    (subscription_id event_id : String) (outcome : DeliveryOutcome) (id : String) (now : ℕ)
    (s : SubscriptionService)
    → AllScheduled s
    → AllScheduled (record_delivery_attempt subscription_id event_id outcome id now s).1
unfolding record_delivery_attempt
attempt-Every subscription_id event_id outcome id now s h =
    let key = record_key subscription_id event_id in
    let r =
      counted_record subscription_id event_id outcome id now (JsMap.get key s.delivery_records) in
    let (once, last, same) =
      counted_new subscription_id event_id outcome id now (JsMap.get key s.delivery_records) in
    set-Every IsScheduled key (scheduled outcome now r) s.delivery_records
      (scheduled-IsScheduled outcome now r once last same) h

step-Every :
    (operation : Operation) (now : ℕ) (s : SubscriptionService)
    → AllScheduled s
    → AllScheduled (step operation now s)
unfolding create_subscription update_subscription delete_subscription acknowledge_events
step-Every (create user_id dto id) now s h = h
step-Every (update user_id id dto) now s h =
    with_found-keeps AllScheduled (find_or_throw user_id id s) s _ h (λ entity. h)
step-Every (delete user_id id) now s h =
    with_found-keeps AllScheduled (find_or_throw user_id id s) s _ h
      (λ entity. retain-Every IsScheduled (is_of_another id) s.delivery_records h)
step-Every (attempt id event_id outcome record_id) now s h =
    attempt-Every id event_id outcome record_id now s h
step-Every (acknowledge user_id id event_ids) now s h =
    with_found-keeps AllScheduled (find_or_throw user_id id s) s _ h
      (λ entity. acknowledge_loop-Every id now event_ids s.delivery_records h)

-- Whatever operations are run on a service without records, each record it then has, is scheduled: one
-- that is to be tried again was tried one to five times and is due `1000 * 2 ^ (attempts - 1)`
-- milliseconds after its last attempt, and any other is not due.
pub run-IsScheduled :
    (operations : List (Operation × ℕ)) (s : SubscriptionService)
    → s.delivery_records ≡ []
    → Every IsScheduled (run operations s).delivery_records
run-IsScheduled operations s empty = loop operations s (rw empty tt)
  where
    loop :
        (operations : List (Operation × ℕ)) (s : SubscriptionService)
        → AllScheduled s
        → AllScheduled (run operations s)
    loop [] s h = h
    loop ((operation, now) ∷ rest) s h =
        loop rest (step operation now s) (step-Every operation now s h)

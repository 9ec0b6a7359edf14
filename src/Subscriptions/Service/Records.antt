-- ===== src/Subscriptions/Service/Records.antt =====
-- src/subscriptions/subscription.service.ts: the attempts to deliver an event, and what the user says
-- of them. A record's key is `subscriptionId:eventId`.
pub mod Scheduling
pub mod Retries
pub mod Acknowledging
pub mod Summary
use atraport_api.Prelude.{
  ℕ, ◌+◌, ◌-◌, ◌*◌, ◌^◌, String, Bool, true, false, not, ◌&&◌, Option, none, some, List, [], ◌∷◌,
  ltb, leb, filter, ◌<>◌, if◌then◌else◌,
}
use text.Mathlib.Text.{◌==◌}
use atraport_api.Prelude.JsMap
use atraport_api.Prelude.JsMap.{JsMap}
use atraport_api.Subscriptions.Types
use atraport_api.Subscriptions.Types.{
  DeliveryMode, DeliveryOutcome, Subscription, DeliveryRecord, CreateSubscription,
  UpdateSubscription, PaginationQuery, DeliverySummary, DeliveryStatus, AcknowledgeResponse,
  SubscriptionService, Found, not_found, found, base_retry_delay_ms, max_retry_attempts,
  is_retrying, is_acknowledged,
}
use atraport_api.Subscriptions.Service.{find_or_throw, with_found, sort}

unfoldable pub record_key : String → String → String
record_key subscription_id event_id = subscription_id <> ":" <> event_id

-- The record as the attempt finds or makes it, counted.
unfoldable pub counted_record :
    String → String → DeliveryOutcome → String → ℕ → Option DeliveryRecord → DeliveryRecord
counted_record subscription_id event_id outcome id now none = record {
  id = id;
  subscription_id = subscription_id;
  event_id = event_id;
  outcome = outcome;
  first_attempt_at = now;
  last_attempt_at = now;
  attempt_count = 1;
  next_retry_at = none;
  created_at = now;
  updated_at = now;
}
counted_record subscription_id event_id outcome id now (some r) = record r {
  attempt_count = r.attempt_count + 1;
  last_attempt_at = now;
  outcome = outcome;
  updated_at = now;
}

unfoldable pub scheduled : DeliveryOutcome → ℕ → DeliveryRecord → DeliveryRecord
scheduled outcome now r =
    if is_retrying outcome
    then (if leb r.attempt_count max_retry_attempts
        then record r {
          next_retry_at = some (now + base_retry_delay_ms * 2 ^ (r.attempt_count - 1));
        }
        else record r { next_retry_at = none; outcome = DeliveryOutcome.failed })
    else record r { next_retry_at = none }

unfoldable pub record_delivery_attempt :
    String
    → String
    → DeliveryOutcome
    → String
    → ℕ
    → SubscriptionService
    → DeliveryRecord × SubscriptionService
record_delivery_attempt subscription_id event_id outcome id now s =
    let key = record_key subscription_id event_id in
    let r =
      scheduled outcome now (
        counted_record subscription_id event_id outcome id now
          (JsMap.get key s.delivery_records)) in
    (r, record s { delivery_records = JsMap.set key r s.delivery_records })

abbrev pub acknowledge_record : ℕ → DeliveryRecord → DeliveryRecord
acknowledge_record now r = record r {
  outcome = DeliveryOutcome.acknowledged;
  next_retry_at = none;
  updated_at = now;
}

-- One turn of the loop of `acknowledgeEvents`: the record, if there is one to acknowledge.
unfoldable pub to_acknowledge : Option DeliveryRecord → Option DeliveryRecord
to_acknowledge none = none
to_acknowledge (some r) = if is_acknowledged r.outcome then none else some r

unfoldable pub acknowledge_one :
    String → ℕ → Option DeliveryRecord → JsMap DeliveryRecord → JsMap DeliveryRecord
acknowledge_one key now none records = records
acknowledge_one key now (some r) records = JsMap.set key (acknowledge_record now r) records

unfoldable pub count_one :
    String → Option DeliveryRecord → AcknowledgeResponse → AcknowledgeResponse
count_one event_id none a = record a { skipped_ids = event_id ∷ a.skipped_ids }
count_one event_id (some r) a = record a { acknowledged_count = a.acknowledged_count + 1 }

unfoldable pub acknowledge_loop :
    String → ℕ → List String → JsMap DeliveryRecord → AcknowledgeResponse × JsMap DeliveryRecord
acknowledge_loop subscription_id now [] records =
    (record { acknowledged_count = 0; skipped_ids = [] }, records)
acknowledge_loop subscription_id now (event_id ∷ rest) records =
    let key = record_key subscription_id event_id in
    let pending = to_acknowledge (JsMap.get key records) in
    let (response, records') =
      acknowledge_loop subscription_id now rest (acknowledge_one key now pending records) in
    (count_one event_id pending response, records')

unfoldable pub acknowledge_events :
    String
    → String
    → List String
    → ℕ
    → SubscriptionService
    → Found AcknowledgeResponse × SubscriptionService
acknowledge_events user_id subscription_id event_ids now s =
    with_found (find_or_throw user_id subscription_id s) s (λ entity.
      let (response, records) = acknowledge_loop subscription_id now event_ids s.delivery_records in
      (response, record s { delivery_records = records }))

-- `summary[outcome]++`
unfoldable pub count_outcome : DeliveryOutcome → DeliverySummary → DeliverySummary
count_outcome DeliveryOutcome.pending a = record a { pending = a.pending + 1 }
count_outcome DeliveryOutcome.delivered a = record a { delivered = a.delivered + 1 }
count_outcome DeliveryOutcome.acknowledged a = record a { acknowledged = a.acknowledged + 1 }
count_outcome DeliveryOutcome.failed a = record a { failed = a.failed + 1 }
count_outcome DeliveryOutcome.retrying a = record a { retrying = a.retrying + 1 }

unfoldable pub summarize : List DeliveryRecord → DeliverySummary → DeliverySummary
summarize [] a = a
summarize (r ∷ rs) a = summarize rs (count_outcome r.outcome a)

abbrev pub is_more_recent : DeliveryRecord → DeliveryRecord → Bool
is_more_recent a b = ltb b.last_attempt_at a.last_attempt_at

-- The records of the subscription, most recent first.
unfoldable pub records_of : String → SubscriptionService → List DeliveryRecord
records_of subscription_id s = sort is_more_recent (
    filter (λ (r : DeliveryRecord). r.subscription_id == subscription_id)
      (JsMap.values s.delivery_records))

unfoldable pub status_of : String → SubscriptionService → DeliveryStatus
status_of subscription_id s =
    let records = records_of subscription_id s in
    record {
      subscription_id = subscription_id;
      summary =
          summarize records
            (record { pending = 0; delivered = 0; acknowledged = 0; failed = 0; retrying = 0 });
      records = records;
    }

unfoldable pub get_delivery_status :
    String → String → SubscriptionService → Found DeliveryStatus × SubscriptionService
get_delivery_status user_id subscription_id s =
    with_found (find_or_throw user_id subscription_id s) s
      (λ entity. (status_of subscription_id s, s))

unfoldable pub list_delivery_records : SubscriptionService → List DeliveryRecord
list_delivery_records s = JsMap.values s.delivery_records

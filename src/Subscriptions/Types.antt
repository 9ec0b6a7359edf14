-- ===== src/Subscriptions/Types.antt =====
-- src/subscriptions/entities and src/subscriptions/dto: the records of the subscription service. A time
-- is in milliseconds, also where the code writes it as ISO text. `NotFoundException` is a result.
use atraport_api.Prelude.{ℕ, String, Bool, true, false, Option, List}
use atraport_api.Prelude.JsMap.{JsMap}
use atraport_api.Subscriptions.Filter.{EventFilter}

pub data DeliveryMode : Type 0 where
  immediate batch : DeliveryMode

pub data DeliveryOutcome : Type 0 where
  pending delivered acknowledged failed retrying : DeliveryOutcome

-- `SubscriptionEntity`. A `SubscriptionDto` has the same fields.
pub record Subscription : Type 0 where
  pub id : String
  pub user_id : String
  pub name : String
  pub filter : EventFilter
  pub delivery_mode : DeliveryMode
  pub batch_interval_seconds : ℕ
  pub callback_url : Option String
  pub active : Bool
  pub created_at : ℕ
  pub updated_at : ℕ

pub record DeliveryRecord : Type 0 where
  pub id : String
  pub subscription_id : String
  pub event_id : String
  pub outcome : DeliveryOutcome
  pub first_attempt_at : ℕ
  pub last_attempt_at : ℕ
  pub attempt_count : ℕ
  pub next_retry_at : Option ℕ
  pub created_at : ℕ
  pub updated_at : ℕ

pub record CreateSubscription : Type 0 where
  pub name : String
  pub filter : EventFilter
  pub delivery_mode : Option DeliveryMode
  pub batch_interval_seconds : Option ℕ
  pub callback_url : Option String

pub record UpdateSubscription : Type 0 where
  pub name : Option String
  pub filter : Option EventFilter
  pub delivery_mode : Option DeliveryMode
  pub batch_interval_seconds : Option ℕ
  pub callback_url : Option String
  pub active : Option Bool

-- `PaginationQueryDto`, with `sortBy` and `sortOrder` as the order they name: `comes_before a b` where
-- `a` is to stand strictly before `b`.
pub record PaginationQuery : Type 0 where
  pub page : Option ℕ
  pub limit : Option ℕ
  pub comes_before : Subscription → Subscription → Bool

pub record DeliverySummary : Type 0 where
  pub pending : ℕ
  pub delivered : ℕ
  pub acknowledged : ℕ
  pub failed : ℕ
  pub retrying : ℕ

pub record DeliveryStatus : Type 0 where
  pub subscription_id : String
  pub summary : DeliverySummary
  pub records : List DeliveryRecord

pub record AcknowledgeResponse : Type 0 where
  pub acknowledged_count : ℕ
  pub skipped_ids : List String

pub record SubscriptionService : Type 0 where
  pub subscriptions : JsMap Subscription
  pub delivery_records : JsMap DeliveryRecord

pub data Found {ℓ} (A : Type ℓ) : Type ℓ where
  not_found : String → Found A
  found : A → Found A

abbrev pub base_retry_delay_ms : ℕ
base_retry_delay_ms = 1000

abbrev pub max_retry_attempts : ℕ
max_retry_attempts = 5

abbrev pub is_retrying : DeliveryOutcome → Bool
is_retrying DeliveryOutcome.retrying = true
is_retrying _ = false

abbrev pub is_acknowledged : DeliveryOutcome → Bool
is_acknowledged DeliveryOutcome.acknowledged = true
is_acknowledged _ = false

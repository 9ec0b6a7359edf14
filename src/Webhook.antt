-- ===== src/Webhook.antt =====
-- src/webhook/webhook.service.ts: events and their delivery to the subscriptions they concern. What is
-- outside the process is in the record `Environment`. The iterations of a loop that awaits a response
-- are run one after the other.
pub mod Signature
pub mod Publishing
pub mod RetryQueue
use atraport_api.Prelude.{
  ℕ, ◌+◌, String, Bool, true, false, not, ◌&&◌, ◌||◌, Option, none, some, List, [], ◌∷◌, map, leb,
  length, filter, find, take, ◌<>◌, truthy, if◌then◌else◌,
}
use mathlib.Core.Option
use text.Mathlib.Text.{◌==◌}
use atraport_api.Prelude.JsMap
use atraport_api.Prelude.JsMap.{JsMap}
use atraport_api.Subscriptions.Filter.{Event, matches_filter}
use atraport_api.Subscriptions.Types
use atraport_api.Subscriptions.Types.{
  DeliveryOutcome, Subscription, DeliveryRecord, SubscriptionService, Found, not_found, found,
  is_retrying,
}
use atraport_api.Subscriptions.Service.{
  list_all_subscriptions, list_active_subscriptions, get_subscription_by_id,
}
use atraport_api.Subscriptions.Service.Records.{
  record_key, record_delivery_attempt, list_delivery_records,
}

-- `data` is any JSON value.
pub record WebhookEvent (J : Type 0) : Type 0 where
  pub id : String
  pub event_type : String
  pub severity : String
  pub data_ : J
  pub metadata : JsMap String
  pub occurred_at : ℕ

pub record PublishEventInput (J : Type 0) : Type 0 where
  pub event_type : String
  pub severity : Option String
  pub data_ : Option J
  pub metadata : Option (JsMap String)

pub record WebhookDeliveryResult : Type 0 where
  pub event_id : String
  pub subscription_id : String
  pub callback_url : Option String
  pub outcome : DeliveryOutcome
  pub attempt_count : ℕ
  pub next_retry_at : Option ℕ
  pub signature : String

pub record DeliveryTransportResult : Type 0 where
  pub ok : Bool
  pub status_code : Option ℕ
  pub error : Option String

pub record FetchRequest : Type 0 where
  pub url : String
  pub signature : String
  pub body : String

-- A call of `fetch` gives a response or throws, with a message.
pub data Fetched : Type 0 where
  response : (ok : Bool) (status : ℕ) → Fetched
  thrown : String → Fetched

-- `fetch` is missing where the platform has none; its answer may depend on the delivery it is for.
-- `record_id` gives the id of a new record, by its key, and `empty` is `{}`.
pub record Environment (J : Type 0) : Type 0 where
  pub hmac_sha256_hex : String → String → String
  pub webhook_secret : Option String
  pub stringify : WebhookEvent J → String
  pub empty : J
  pub fetch : Option (String → FetchRequest → Fetched)
  pub record_id : String → String

pub record WebhookService (J : Type 0) : Type 0 where
  pub event_history : List (WebhookEvent J)
  pub subscriptions : SubscriptionService

abbrev pub default_secret : String
default_secret = "development-webhook-secret"

module _ {J : Type 0} (env : Environment J) where
  unfoldable pub generate_signature : String → String
  generate_signature text =
      env.hmac_sha256_hex (Option.get_or env.webhook_secret default_secret) text

  -- `signPayload` of an envelope.
  unfoldable pub sign_event : WebhookEvent J → String
  sign_event event = generate_signature (env.stringify event)

  sent : Fetched → DeliveryTransportResult
  sent (response ok status) = record { ok = ok; status_code = some status; error = none }
  sent (thrown message) = record { ok = false; status_code = none; error = some message }

  send_by :
      Option (String → FetchRequest → Fetched) → String → FetchRequest → DeliveryTransportResult
  send_by none key request = record { ok = true; status_code = some 202; error = none }
  send_by (some fetch) key request = sent (fetch key request)

  unfoldable pub send_webhook : String → String → WebhookEvent J → DeliveryTransportResult
  unfolding sent send_by
  send_webhook key url event =
      send_by env.fetch key
        (record { url = url; signature = sign_event event; body = env.stringify event })

  unfoldable pub publish_event :
      PublishEventInput J → String → ℕ → WebhookService J → WebhookEvent J × WebhookService J
  publish_event input id now s =
      let event : WebhookEvent J = record {
        id = id;
        event_type = input.event_type;
        severity = Option.get_or input.severity "low";
        data_ = Option.get_or input.data_ env.empty;
        metadata = Option.get_or input.metadata [];
        occurred_at = now;
      } in
      (event, record s { event_history = event ∷ s.event_history })

  -- The outcome that is recorded: by the response where there is a callback to be called.
  unfoldable pub delivery_outcome : String → Option String → WebhookEvent J → DeliveryOutcome
  delivery_outcome key none event = DeliveryOutcome.delivered
  delivery_outcome key (some url) event =
      if (send_webhook key url event).ok
      then DeliveryOutcome.delivered
      else DeliveryOutcome.retrying

  unfoldable pub deliver_to_subscription :
      Subscription
      → WebhookEvent J
      → Bool
      → ℕ
      → SubscriptionService
      → WebhookDeliveryResult × SubscriptionService
  deliver_to_subscription subscription event force_simulation now s =
      let key = record_key subscription.id event.id in
      let outcome =
        delivery_outcome key (if force_simulation then none else truthy subscription.callback_url)
          event in
      let (r, s') =
        record_delivery_attempt subscription.id event.id outcome (env.record_id key) now s in
      (
        record {
          event_id = event.id;
          subscription_id = subscription.id;
          callback_url = subscription.callback_url;
          outcome = r.outcome;
          attempt_count = r.attempt_count;
          next_retry_at = r.next_retry_at;
          signature = sign_event event;
        },
        s',
      )

  abbrev pub as_event : WebhookEvent J → Event
  as_event event = record {
    event_type = event.event_type;
    severity = some event.severity;
    metadata = some event.metadata;
  }

  -- The loop of `publishAndDeliver`, over the subscriptions that were active when it began.
  unfoldable pub deliver_loop :
      WebhookEvent J
      → ℕ
      → List Subscription
      → SubscriptionService
      → List WebhookDeliveryResult × SubscriptionService
  deliver_loop event now [] s = ([], s)
  deliver_loop event now (subscription ∷ rest) s =
      let (result, s') = deliver_to_subscription subscription event false now s in
      let (results, s'') = deliver_loop event now rest s' in
      let skipped = deliver_loop event now rest s in
      if matches_filter subscription.filter (as_event event)
      then (result ∷ results, s'')
      else skipped

  unfoldable pub publish_and_deliver :
      PublishEventInput J
      → String
      → ℕ
      → WebhookService J
      → WebhookEvent J × List WebhookDeliveryResult × WebhookService J
  publish_and_deliver input id now s =
      let (event, s1) = publish_event input id now s in
      let (deliveries, subscriptions) =
        deliver_loop event now (list_active_subscriptions s1.subscriptions) s1.subscriptions in
      (event, deliveries, record s1 { subscriptions = subscriptions })

  simulate_for :
      WebhookEvent J
      → ℕ
      → Found Subscription
      → WebhookService J
      → Found WebhookDeliveryResult × WebhookService J
  simulate_for event now (not_found id) s = (not_found id, s)
  simulate_for event now (found subscription) s =
      let (result, subscriptions) =
        deliver_to_subscription subscription event true now s.subscriptions in
      (found result, record s { subscriptions = subscriptions })

  -- The event is published before the subscription is looked up.
  unfoldable pub simulate_delivery :
      String
      → PublishEventInput J
      → String
      → ℕ
      → WebhookService J
      → Found WebhookDeliveryResult × WebhookService J
  unfolding simulate_for
  simulate_delivery subscription_id input id now s =
      let (event, s1) = publish_event input id now s in
      simulate_for event now (get_subscription_by_id subscription_id s1.subscriptions) s1

-- ===== src/Webhook/RetryQueue.antt =====
-- src/webhook/webhook.service.ts: the deliveries that are to be tried again, and the dashboard.
pub mod Retrying
use atraport_api.Prelude.{
  ℕ, ◌+◌, String, Bool, true, false, not, ◌&&◌, ◌||◌, Option, none, some, List, [], ◌∷◌, ◌++◌, map,
  leb, length, filter, find, take, truthy, if◌then◌else◌,
}
use text.Mathlib.Text.{◌==◌}
use atraport_api.Subscriptions.Types
use atraport_api.Subscriptions.Types.{
  DeliveryOutcome, Subscription, DeliveryRecord, SubscriptionService, Found, not_found, found,
  is_retrying,
}
use atraport_api.Subscriptions.Service.{list_all_subscriptions, get_subscription_by_id}
use atraport_api.Subscriptions.Service.Records.{list_delivery_records}
use atraport_api.Webhook.{
  WebhookEvent, WebhookDeliveryResult, WebhookService, Environment, deliver_to_subscription,
}

is_past : ℕ → Option ℕ → Bool
is_past now none = false
is_past now (some t) = leb t now

has_text : Option String → Bool
has_text none = false
has_text (some s) = true

-- The guard of `retryDueDeliveries`, negated.
unfoldable pub is_due : ℕ → DeliveryRecord → Bool
unfolding is_past has_text
is_due now r =
    is_retrying r.outcome
    && is_past now r.next_retry_at
    && has_text (truthy (some r.subscription_id))

module _ {J : Type 0} (env : Environment J) (history : List (WebhookEvent J)) (now : ℕ) where
  unfoldable pub event_of : String → Option (WebhookEvent J)
  event_of id = find (λ (item : WebhookEvent J). item.id == id) history

  -- The record's event, where the record is due.
  unfoldable pub due_event : DeliveryRecord → Option (WebhookEvent J)
  due_event r = let event = event_of r.event_id in if is_due now r then event else none

  unfoldable pub deliver_found :
      WebhookEvent J
      → Found Subscription
      → SubscriptionService
      → Found (List WebhookDeliveryResult) × SubscriptionService
  deliver_found event (not_found id) s = (not_found id, s)
  deliver_found event (found subscription) s =
      let (result, s') = deliver_to_subscription env subscription event false now s in
      (found (result ∷ []), s')

  -- One turn of the loop: what it pushes.
  unfoldable pub retry_one :
      Option (WebhookEvent J)
      → DeliveryRecord
      → SubscriptionService
      → Found (List WebhookDeliveryResult) × SubscriptionService
  retry_one none r s = (found [], s)
  retry_one (some event) r s = deliver_found event (get_subscription_by_id r.subscription_id s) s

  -- What the later turns push is added; an exception ends the loop.
  unfoldable pub and_then :
      Found (List WebhookDeliveryResult)
      → SubscriptionService
      → Found (List WebhookDeliveryResult) × SubscriptionService
      → Found (List WebhookDeliveryResult) × SubscriptionService
  and_then (not_found id) s later = (not_found id, s)
  and_then (found results) s (not_found id, s') = (not_found id, s')
  and_then (found results) s (found more, s') = (found (results ++ more), s')

  unfoldable pub retry_loop :
      List DeliveryRecord
      → SubscriptionService
      → Found (List WebhookDeliveryResult) × SubscriptionService
  retry_loop [] s = (found [], s)
  retry_loop (r ∷ rest) s =
      let (pushed, s') = retry_one (due_event r) r s in
      let later = retry_loop rest s' in and_then pushed s' later

-- The records are those that there are when it begins.
unfoldable pub retry_due_deliveries :
    {J : Type 0}
    → Environment J
    → ℕ
    → WebhookService J
    → Found (List WebhookDeliveryResult) × WebhookService J
retry_due_deliveries env now s =
    let (results, subscriptions) =
      retry_loop env s.event_history now (list_delivery_records s.subscriptions) s.subscriptions in
    (results, record s { subscriptions = subscriptions })

pub record QueuedRetry : Type 0 where
  pub event_id : String
  pub subscription_id : String
  pub attempt_count : ℕ
  pub next_retry_at : Option ℕ

pub record Dashboard (J : Type 0) : Type 0 where
  pub total_subscriptions : ℕ
  pub active_subscriptions : ℕ
  pub total_events : ℕ
  pub recent_events : List (WebhookEvent J)
  pub total_deliveries : ℕ
  pub delivered : ℕ
  pub retrying : ℕ
  pub failed : ℕ
  pub retry_queue : List QueuedRetry

abbrev pub is_delivered : DeliveryOutcome → Bool
is_delivered DeliveryOutcome.delivered = true
is_delivered _ = false

abbrev pub is_failed : DeliveryOutcome → Bool
is_failed DeliveryOutcome.failed = true
is_failed _ = false

count_where : (DeliveryOutcome → Bool) → List DeliveryRecord → ℕ
count_where test rs = length (filter (λ (r : DeliveryRecord). test r.outcome) rs)

queued : DeliveryRecord → QueuedRetry
queued r = record {
  event_id = r.event_id;
  subscription_id = r.subscription_id;
  attempt_count = r.attempt_count;
  next_retry_at = r.next_retry_at;
}

unfoldable pub get_dashboard : {J : Type 0} → WebhookService J → Dashboard J
unfolding count_where queued
get_dashboard s =
    let subscriptions = list_all_subscriptions s.subscriptions in
    let rs = list_delivery_records s.subscriptions in
    record {
      total_subscriptions = length subscriptions;
      active_subscriptions = length (filter (λ (sub : Subscription). sub.active) subscriptions);
      total_events = length s.event_history;
      recent_events = take 10 s.event_history;
      total_deliveries = length rs;
      delivered = count_where is_delivered rs;
      retrying = count_where is_retrying rs;
      failed = count_where is_failed rs;
      retry_queue = map queued (filter (λ (r : DeliveryRecord). is_retrying r.outcome) rs);
    }

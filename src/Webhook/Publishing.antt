-- ===== src/Webhook/Publishing.antt =====
-- src/webhook/webhook.service.ts: to whom an event is delivered, and what is recorded of it.
use atraport_api.Prelude.{
  ℕ, ◌+◌, String, true, false, none, some, List, [], ◌∷◌, ◌≡◌, refl, arith, filter, truthy,
  if◌then◌else◌, Bool-cases, inl, inr,
}
use atraport_api.Prelude.JsMap
use atraport_api.Prelude.JsMap.{JsMap, get-set}
use text.Mathlib.Text.{◌==◌}
use atraport_api.Subscriptions.Filter.{matches_filter}
use atraport_api.Subscriptions.Types.{
  DeliveryOutcome, Subscription, SubscriptionService, is_retrying,
}
use atraport_api.Subscriptions.Service.{list_active_subscriptions}
use atraport_api.Subscriptions.Service.Records.{
  record_key, record_delivery_attempt, counted_record, scheduled,
}
use atraport_api.Webhook.{
  WebhookEvent, PublishEventInput, WebhookDeliveryResult, WebhookService, Environment, FetchRequest,
  Fetched, response, thrown, send_webhook, send_by, sent, publish_event, delivery_outcome,
  deliver_to_subscription, deliver_loop, as_event, publish_and_deliver, sign_event,
}

module _ {J : Type 0} (env : Environment J) where
  -- The answer for one subscription: to it, signed, and with the outcome of its own callback.
  abbrev pub IsAnswered : WebhookEvent J → Subscription → WebhookDeliveryResult → Type 0
  IsAnswered event subscription r =
      (r.event_id ≡ event.id)
      × (r.subscription_id ≡ subscription.id)
      × (r.callback_url ≡ subscription.callback_url)
      × (r.signature ≡ sign_event env event)

  abbrev pub targets : WebhookEvent J → List Subscription → List Subscription
  targets event subs =
      filter (λ (sub : Subscription). matches_filter sub.filter (as_event env event)) subs

  abbrev pub AllAnswered : WebhookEvent J → List Subscription → List WebhookDeliveryResult → Type 0
  AllAnswered event [] [] = Unit
  AllAnswered event (sub ∷ subs) (r ∷ rs) = IsAnswered event sub r × AllAnswered event subs rs
  AllAnswered event _ _ = ⊥

  IsAnswered-deliver :
      (event : WebhookEvent J) (sub : Subscription) (now : ℕ) (s : SubscriptionService)
      → IsAnswered event sub (deliver_to_subscription env sub event false now s).0
  unfolding deliver_to_subscription
  IsAnswered-deliver event sub now s = (refl, refl, refl, refl)

  deliver_loop-AllAnswered :
      (event : WebhookEvent J) (now : ℕ) (subs : List Subscription) (s : SubscriptionService)
      → AllAnswered event (targets event subs) (deliver_loop env event now subs s).0
  unfolding deliver_loop
  deliver_loop-AllAnswered event now [] s = tt
  deliver_loop-AllAnswered event now (sub ∷ rest) s =
      elim (Bool-cases (matches_filter sub.filter (as_event env event))) [
        | inl fits ↦ rw fits (
          IsAnswered-deliver event sub now s,
          deliver_loop-AllAnswered event now rest
              (deliver_to_subscription env sub event false now s).1,
        )
        | inr other ↦ rw other (deliver_loop-AllAnswered event now rest s)
      ]

  -- Publishing an event puts it first in the history and delivers it, once and in their order, to the
  -- active subscriptions whose filter it passes, and to no others: there is an answer for each of them,
  -- with the subscription's id and callback, the event's id and the event's signature.
  pub publish_and_deliver-AllAnswered :
      (input : PublishEventInput J) (id : String) (now : ℕ) (s : WebhookService J)
      → let (event, deliveries, after) = publish_and_deliver env input id now s in
        (after.event_history ≡ event ∷ s.event_history)
        × AllAnswered event (targets event (list_active_subscriptions s.subscriptions)) deliveries
  unfolding publish_and_deliver publish_event
  publish_and_deliver-AllAnswered input id now s =
      let event = (publish_event env input id now s).0 in
      (
        refl,
        deliver_loop-AllAnswered event now (list_active_subscriptions s.subscriptions)
            s.subscriptions,
      )

  -- What a response means for a delivery.
  abbrev pub outcome_of : Fetched → DeliveryOutcome
  outcome_of (response true status) = DeliveryOutcome.delivered
  outcome_of (response false status) = DeliveryOutcome.retrying
  outcome_of (thrown message) = DeliveryOutcome.retrying

  abbrev pub request_to : String → WebhookEvent J → FetchRequest
  request_to url event = record {
    url = url;
    signature = sign_event env event;
    body = env.stringify event;
  }

  ok-sent :
      (answer : Fetched)
      → (if (sent env answer).ok then DeliveryOutcome.delivered else DeliveryOutcome.retrying)
        ≡ outcome_of answer
  unfolding sent
  ok-sent (response true status) = refl
  ok-sent (response false status) = refl
  ok-sent (thrown message) = refl

  outcome_by_fetch :
      (event : WebhookEvent J) (key url : String) (fetch : String → FetchRequest → Fetched)
      → env.fetch ≡ some fetch
      → delivery_outcome env key (some url) event ≡ outcome_of (fetch key (request_to url event))
  unfolding delivery_outcome send_webhook send_by
  outcome_by_fetch event key url fetch has = simp has (ok-sent (fetch key (request_to url event)))

  first_scheduled :
      (subscription_id event_id : String) (outcome : DeliveryOutcome) (id : String) (now : ℕ)
      → let r =
          scheduled outcome now (counted_record subscription_id event_id outcome id now none) in
        (r.outcome ≡ outcome)
        × (r.attempt_count ≡ 1)
        × (r.next_retry_at ≡ (if is_retrying outcome then some (now + 1000) else none))
  unfolding scheduled counted_record
  first_scheduled subscription_id event_id outcome id now = ground arith

  -- The first delivery of an event to a subscription with a callback makes a record: delivered if the
  -- callback's response was good, and otherwise, also where the call threw, to be tried again a second
  -- later. The records of all other deliveries stay as they are.
  pub first_delivery_lem :
      (sub : Subscription) (event : WebhookEvent J) (url : String) (now : ℕ)
      (s : SubscriptionService) (fetch : String → FetchRequest → Fetched)
      → env.fetch ≡ some fetch
      → truthy sub.callback_url ≡ some url
      → JsMap.get (record_key sub.id event.id) s.delivery_records ≡ none
      → let key = record_key sub.id event.id in
        let outcome = outcome_of (fetch key (request_to url event)) in
        let (result, after) = deliver_to_subscription env sub event false now s in
        (result.outcome ≡ outcome)
        × (result.attempt_count ≡ 1)
        × (result.next_retry_at ≡ (if is_retrying outcome then some (now + 1000) else none))
        × ((other : String)
            → JsMap.get other after.delivery_records ≡ (
                if key == other
                then some (
                    scheduled outcome now
                      (counted_record sub.id event.id outcome (env.record_id key) now none))
                else JsMap.get other s.delivery_records))
  unfolding deliver_to_subscription record_delivery_attempt
  first_delivery_lem sub event url now s fetch has callback new =
      let key = record_key sub.id event.id in
      let outcome = outcome_of (fetch key (request_to url event)) in
      let (same, once, due) = first_scheduled sub.id event.id outcome (env.record_id key) now in
      rw (callback, new, outcome_by_fetch event key url fetch has)
        (
          same,
          once,
          due,
          (λ other.
              get-set key other
                (scheduled outcome now
                  (counted_record sub.id event.id outcome (env.record_id key) now none))
                s.delivery_records),
        )

-- ===== src/Tests/WebhookRuns.antt =====
-- src/webhook: runs of publishing, retrying and checking a signature.
use atraport_api.Prelude.{
  ◌<>◌, String, true, false, none, some, List, [], ◌∷◌, map, ◌≡◌, refl, ◌↔◌, filter,
}
use atraport_api.Prelude.JsMap
use atraport_api.Prelude.JsMap.{JsMap}
use atraport_api.Subscriptions.Filter.{EventFilter}
use atraport_api.Subscriptions.Types.{
  Subscription, SubscriptionService, DeliveryRecord, DeliveryOutcome, not_found, found, immediate,
}
use atraport_api.Subscriptions.Service
use atraport_api.Subscriptions.Service.{list_active_subscriptions, get_subscription_by_id}
use atraport_api.Subscriptions.Service.Records.{list_delivery_records}
use atraport_api.Webhook
use atraport_api.Webhook.{
  WebhookEvent, PublishEventInput, WebhookDeliveryResult, WebhookService, Environment, FetchRequest,
  Fetched, response, publish_and_deliver, deliver_to_subscription, sign_event,
}
use atraport_api.Webhook.Signature
use atraport_api.Webhook.Signature.{
  codes, utf16_length, is_ascii, verdict, range_error, verify_signature, verify_signature_lem,
}
use atraport_api.Webhook.RetryQueue
use atraport_api.Webhook.RetryQueue.{retry_due_deliveries}
use atraport_api.Webhook.RetryQueue.Retrying.{
  delivery_of, pair_of, is_tried, retry_due_deliveries_lem, retry_stops_at_orphan,
}

-- Every call is answered with a server's error.
abbrev failing : String → FetchRequest → Fetched
failing key request = response false 500

abbrev env : Environment Unit
env = record {
  hmac_sha256_hex = λ secret text. "0a";
  webhook_secret = none;
  stringify = λ event. event.id;
  empty = tt;
  fetch = some failing;
  record_id = λ key. "r:" <> key;
}

abbrev event : WebhookEvent Unit
event = record {
  id = "e1";
  event_type = "asset.added";
  severity = "low";
  data_ = tt;
  metadata = [];
  occurred_at = 5;
}

verify_signature_lem_example :
    ((verify_signature env "0é" event ≡ verdict true) ↔ ("0é" ≡ sign_event env event))
    × ((verify_signature env "0é" event ≡ range_error) ↔ (
        (utf16_length (codes "0é") ≡ utf16_length (codes (sign_event env event)))
        × (is_ascii (codes "0é") ≡ false)))
unfolding sign_event Webhook.generate_signature Signature.codes
verify_signature_lem_example = verify_signature_lem env "0é" event refl

abbrev added_filter : EventFilter
added_filter = record {
  event_types = "asset.added" ∷ [];
  min_severity = none;
  custom_predicates = none;
}

abbrev subscription : Subscription
subscription = record {
  id = "s1";
  user_id = "ann";
  name = "assets";
  filter = added_filter;
  delivery_mode = immediate;
  batch_interval_seconds = 0;
  callback_url = some "https://a";
  active = true;
  created_at = 1;
  updated_at = 1;
}

abbrev subscriptions : SubscriptionService
subscriptions = record { subscriptions = ("s1", subscription) ∷ []; delivery_records = [] }

abbrev webhooks : WebhookService Unit
webhooks = record { event_history = []; subscriptions = subscriptions }

abbrev input : PublishEventInput Unit
input = record { event_type = "asset.added"; severity = none; data_ = none; metadata = none }

abbrev due_record : DeliveryRecord
due_record = record {
  id = "r1";
  subscription_id = "s1";
  event_id = "e1";
  outcome = DeliveryOutcome.retrying;
  first_attempt_at = 5;
  last_attempt_at = 5;
  attempt_count = 1;
  next_retry_at = some 1005;
  created_at = 5;
  updated_at = 5;
}

abbrev waiting : WebhookService Unit
waiting = record {
  event_history = event ∷ [];
  subscriptions = record {
    subscriptions = ("s1", subscription) ∷ [];
    delivery_records = ("s1:e1", due_record) ∷ [];
  };
}

retry_due_deliveries_lem_example :
    (results : List WebhookDeliveryResult) × ((retry_due_deliveries env 2000 waiting).0
      ≡ found results)
    × (map delivery_of results
        ≡ map pair_of (filter (is_tried env (event ∷ []) 2000) (due_record ∷ [])))
unfolding JsMap.get RetryQueue.due_event RetryQueue.is_due RetryQueue.event_of
    Service.get_subscription_by_id list_delivery_records
retry_due_deliveries_lem_example =
    retry_due_deliveries_lem env 2000 waiting ((λ tried. (subscription, refl, refl)), tt)

abbrev orphaned : WebhookService Unit
orphaned = record {
  event_history = event ∷ [];
  subscriptions = record { subscriptions = []; delivery_records = ("s1:e1", due_record) ∷ [] };
}

retry_stops_at_orphan_example : retry_due_deliveries env 2000 orphaned ≡ (not_found "s1", orphaned)
unfolding JsMap.get RetryQueue.due_event RetryQueue.is_due RetryQueue.event_of
    Service.get_subscription_by_id list_delivery_records
retry_stops_at_orphan_example =
    retry_stops_at_orphan env 2000 due_record [] orphaned refl (refl, refl)

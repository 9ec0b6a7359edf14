-- ===== src/Tests/SubscriptionRuns.antt =====
-- src/subscriptions: runs of the filter and of the subscriptions' own operations.
use atraport_api.Prelude.{
  String, true, none, some, [], ◌∷◌, ◌≡◌, ◌≢◌, ap, ◌∙◌, ◌↔◌, arith, eq_iff, All, truthy,
}
use atraport_api.Prelude.JsMap
use atraport_api.Prelude.JsMap.{keep}
use atraport_api.Subscriptions.Filter.{
  EventFilter, Event, valid, available_event_types, matches_filter, validate_filter,
  compile_filter_summary,
}
use atraport_api.Subscriptions.Filter.Laws.{
  Has, IsSevere, AllHold, IsSeverity, matches_filter_iff, validate_filter_iff,
}
use atraport_api.Subscriptions.Types.{
  Subscription, CreateSubscription, UpdateSubscription, SubscriptionService, not_found, immediate,
}
use atraport_api.Subscriptions.Service.{update_subscription, delete_subscription, get_subscription}
use atraport_api.Subscriptions.Service.Records.{acknowledge_events, get_delivery_status}
use atraport_api.Subscriptions.Service.Ownership.{stranger_refused}

abbrev price_filter : EventFilter
price_filter = record {
  event_types = "asset.price_change" ∷ [];
  min_severity = some "medium";
  custom_predicates = some (("assetId", "XLM") ∷ []);
}

abbrev price_event : Event
price_event = record {
  event_type = "asset.price_change";
  severity = some "high";
  metadata = some (("assetId", "XLM") ∷ []);
}

matches_filter_iff_example : (matches_filter price_filter price_event ≡ true) ↔ (
    Has "asset.price_change" ("asset.price_change" ∷ [])
    × IsSevere (truthy (some "medium")) (truthy (some "high"))
    × AllHold (some (("assetId", "XLM") ∷ [])) (some (("assetId", "XLM") ∷ [])))
matches_filter_iff_example = matches_filter_iff price_filter price_event

validate_filter_iff_example :
    (validate_filter price_filter ≡ valid (compile_filter_summary price_filter)) ↔ (
      (price_filter.event_types ≢ [])
      × All (λ t. Has t available_event_types) price_filter.event_types
      × IsSeverity price_filter.min_severity)
validate_filter_iff_example = validate_filter_iff price_filter

abbrev subscription : Subscription
subscription = record {
  id = "s1";
  user_id = "ann";
  name = "prices";
  filter = price_filter;
  delivery_mode = immediate;
  batch_interval_seconds = 0;
  callback_url = some "https://a";
  active = true;
  created_at = 1;
  updated_at = 1;
}

abbrev service : SubscriptionService
service = record { subscriptions = ("s1", subscription) ∷ []; delivery_records = [] }

abbrev renaming : UpdateSubscription
renaming = record {
  name = some "all prices";
  filter = none;
  delivery_mode = none;
  batch_interval_seconds = none;
  callback_url = none;
  active = none;
}

ann_or_bob : (s : String) → "ann" ≡ s → s ≢ "bob"
ann_or_bob s e f = ground (arith, (eq_iff "ann" "bob").1 (e ∙ f))

only_ann :
    (entity : Subscription)
    → JsMap.get "s1" service.subscriptions ≡ some entity
    → entity.user_id ≢ "bob"
unfolding JsMap.get
only_ann entity h =
    let it : subscription ≡ entity = ground arith in
    ann_or_bob entity.user_id (ap (λ (sub : Subscription). sub.user_id) it)

stranger_refused_example :
    (get_subscription "bob" "s1" service ≡ not_found "s1")
    × (update_subscription "bob" "s1" renaming 5 service ≡ (not_found "s1", service))
    × (delete_subscription "bob" "s1" service ≡ (not_found "s1", service))
    × (acknowledge_events "bob" "s1" ("e1" ∷ []) 5 service ≡ (not_found "s1", service))
    × (get_delivery_status "bob" "s1" service ≡ (not_found "s1", service))
stranger_refused_example = stranger_refused "bob" "s1" renaming ("e1" ∷ []) 5 service only_ann

abbrev creation : CreateSubscription
creation = record {
  name = "risk";
  filter = price_filter;
  delivery_mode = none;
  batch_interval_seconds = none;
  callback_url = none;
}

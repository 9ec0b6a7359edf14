-- ===== src/Subscriptions/Service.antt =====
-- src/subscriptions/subscription.service.ts: whose subscriptions there are. A new id (`uuidv4()`) and
-- the clock's reading `now` are arguments.
pub mod Records
pub mod Ownership
use atraport_api.Prelude.{
  ℕ, ◌+◌, ◌-◌, ◌*◌, ◌^◌, String, Bool, true, false, not, ◌&&◌, Option, none, some, List, [], ◌∷◌,
  ◌++◌, map, ltb, leb, length, filter, take, drop, ◌<>◌, if◌then◌else◌,
}
use mathlib.Core.Option
use text.Mathlib.Text.{◌==◌}
use atraport_api.Prelude.JsMap
use atraport_api.Prelude.JsMap.{JsMap}
use atraport_api.Pagination.{PaginationMeta, PaginatedResponse, create_offset_paginated_response}
use atraport_api.Subscriptions.Types
use atraport_api.Subscriptions.Types.{
  DeliveryMode, DeliveryOutcome, Subscription, DeliveryRecord, CreateSubscription,
  UpdateSubscription, PaginationQuery, DeliverySummary, DeliveryStatus, AcknowledgeResponse,
  SubscriptionService, Found, not_found, found, base_retry_delay_ms, max_retry_attempts,
  is_retrying, is_acknowledged,
}

unfoldable pub create_subscription :
    String
    → CreateSubscription
    → String
    → ℕ
    → SubscriptionService
    → Subscription × SubscriptionService
create_subscription user_id dto id now s =
    let entity : Subscription = record {
      id = id;
      user_id = user_id;
      name = dto.name;
      filter = dto.filter;
      delivery_mode = Option.get_or dto.delivery_mode DeliveryMode.immediate;
      batch_interval_seconds = Option.get_or dto.batch_interval_seconds 0;
      callback_url = dto.callback_url;
      active = true;
      created_at = now;
      updated_at = now;
    } in
    (entity, record s { subscriptions = JsMap.set id entity s.subscriptions })

-- `Array.prototype.sort`, which is stable.
unfoldable pub insert {ℓ} : {A : Type ℓ} → (A → A → Bool) → A → List A → List A
insert comes_before x [] = x ∷ []
insert comes_before x (y ∷ ys) =
    let rest = insert comes_before x ys in if comes_before y x then y ∷ rest else x ∷ (y ∷ ys)

unfoldable pub sort {ℓ} : {A : Type ℓ} → (A → A → Bool) → List A → List A
sort comes_before [] = []
sort comes_before (x ∷ xs) = insert comes_before x (sort comes_before xs)

unfoldable pub owned_by : String → SubscriptionService → List Subscription
owned_by user_id s =
    filter (λ (sub : Subscription). sub.user_id == user_id) (JsMap.values s.subscriptions)

unfoldable pub page_of : Option PaginationQuery → List Subscription → PaginatedResponse Subscription
page_of none all_results = record {
  data_ = all_results;
  meta = record {
    total = length all_results;
    page = 1;
    limit = length all_results;
    total_pages = 1;
    has_next = false;
    has_previous = false;
  };
}
page_of (some query) all_results =
    let page = Option.get_or query.page 1 in
    let limit = Option.get_or query.limit 10 in
    let sorted = sort query.comes_before all_results in
    create_offset_paginated_response (take limit (drop ((page - 1) * limit) sorted)) (length sorted)
      page limit

unfoldable pub list_subscriptions :
    String → Option PaginationQuery → SubscriptionService → PaginatedResponse Subscription
list_subscriptions user_id pagination s = page_of pagination (owned_by user_id s)

unfoldable pub list_all_subscriptions : SubscriptionService → List Subscription
list_all_subscriptions s = JsMap.values s.subscriptions

unfoldable pub list_active_subscriptions : SubscriptionService → List Subscription
list_active_subscriptions s = filter (λ (sub : Subscription). sub.active) (list_all_subscriptions s)

found_or : String → Option Subscription → Found Subscription
found_or id none = not_found id
found_or id (some entity) = found entity

unfoldable pub get_subscription_by_id : String → SubscriptionService → Found Subscription
unfolding found_or
get_subscription_by_id id s = found_or id (JsMap.get id s.subscriptions)

owned_or : String → String → Option Subscription → Found Subscription
owned_or user_id id none = not_found id
owned_or user_id id (some entity) = if entity.user_id == user_id then found entity else not_found id

unfoldable pub find_or_throw : String → String → SubscriptionService → Found Subscription
unfolding owned_or
find_or_throw user_id id s = owned_or user_id id (JsMap.get id s.subscriptions)

-- What follows a call of `findOrThrow`.
unfoldable pub with_found {ℓ} :
    {A : Type ℓ}
    → Found Subscription
    → SubscriptionService
    → (Subscription → A × SubscriptionService)
    → Found A × SubscriptionService
with_found (not_found id) s rest = (not_found id, s)
with_found (found entity) s rest = let (a, s') = rest entity in (found a, s')

-- What holds of the state before, and after the rest whatever was found, holds afterwards.
pub with_found-keeps {ℓ κ} :
    {A : Type ℓ} (P : SubscriptionService → Type κ) (target : Found Subscription)
    (s : SubscriptionService) (rest : Subscription → A × SubscriptionService)
    → P s
    → ((entity : Subscription) → P (rest entity).1)
    → P (with_found target s rest).1
unfolding with_found
with_found-keeps P (not_found id) s rest h k = h
with_found-keeps P (found entity) s rest h k = k entity

unfoldable pub get_subscription : String → String → SubscriptionService → Found Subscription
get_subscription user_id id s = find_or_throw user_id id s

defined_or : Option String → Option String → Option String
defined_or none old = old
defined_or (some new) old = some new

-- The assignments of `updateSubscription`, one for each field of the request that is defined.
unfoldable pub updated : UpdateSubscription → ℕ → Subscription → Subscription
unfolding defined_or
updated dto now entity = record entity {
  name = Option.get_or dto.name entity.name;
  filter = Option.get_or dto.filter entity.filter;
  delivery_mode = Option.get_or dto.delivery_mode entity.delivery_mode;
  batch_interval_seconds = Option.get_or dto.batch_interval_seconds entity.batch_interval_seconds;
  callback_url = defined_or dto.callback_url entity.callback_url;
  active = Option.get_or dto.active entity.active;
  updated_at = now;
}

-- The entity is stored under its own id.
unfoldable pub update_subscription :
    String
    → String
    → UpdateSubscription
    → ℕ
    → SubscriptionService
    → Found Subscription × SubscriptionService
update_subscription user_id subscription_id dto now s =
    with_found (find_or_throw user_id subscription_id s) s (λ entity.
      let entity' = updated dto now entity in
      (entity', record s { subscriptions = JsMap.set entity.id entity' s.subscriptions }))

abbrev pub is_of_another : String → String → DeliveryRecord → Bool
is_of_another subscription_id key r = not (r.subscription_id == subscription_id)

unfoldable pub delete_subscription :
    String → String → SubscriptionService → Found {0} Unit × SubscriptionService
delete_subscription user_id subscription_id s =
    with_found (find_or_throw user_id subscription_id s) s (λ entity. (
      tt,
      record s {
        subscriptions = JsMap.delete subscription_id s.subscriptions;
        delivery_records = JsMap.retain (is_of_another subscription_id) s.delivery_records;
      },
    ))

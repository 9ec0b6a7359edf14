-- ===== src/Subscriptions/Service/Ownership.antt =====
-- Whose subscription an operation reaches.
use atraport_api.Prelude.{
  ℕ, ◌-◌, ◌*◌, String, Bool, Option, none, some, List, [], ◌∷◌, ◌≡◌, ◌≢◌, refl, eq_refl, eq_iff,
  eq-false_of_ne, filter, take, drop, zero, suc, All, if◌then◌else◌, Bool-cases, inl, inr,
}
use mathlib.Core.Option
use text.Mathlib.Text.{◌==◌}
use atraport_api.Prelude.JsMap
use atraport_api.Prelude.JsMap.{
  JsMap, IsDistinct, get-set, get-delete, get-retain, keep, Every, Every-get,
}
use atraport_api.Pagination.{create_offset_paginated_response}
use atraport_api.Subscriptions.Types.{
  Subscription, CreateSubscription, UpdateSubscription, PaginationQuery, SubscriptionService,
  not_found, found,
}
use atraport_api.Subscriptions.Service.{
  create_subscription, update_subscription, delete_subscription, get_subscription, find_or_throw,
  with_found, updated, owned_or, owned_by, list_subscriptions, page_of, sort, insert, is_of_another,
}
use atraport_api.Subscriptions.Service.Records.{acknowledge_events, get_delivery_status}

refused :
    (user_id id : String) (o : Option Subscription)
    → ((entity : Subscription) → o ≡ some entity → entity.user_id ≢ user_id)
    → owned_or user_id id o ≡ not_found id
unfolding owned_or
refused user_id id none h = refl
refused user_id id (some entity) h = rw (eq-false_of_ne entity.user_id user_id (h entity refl)) refl

-- Where no subscription of that id is the user's, reading, updating and deleting it, acknowledging its
-- events and asking for its delivery status all answer that it is not found, and change nothing.
pub stranger_refused :
    (user_id id : String) (dto : UpdateSubscription) (event_ids : List String) (now : ℕ)
    (s : SubscriptionService)
    → ((entity : Subscription)
        → JsMap.get id s.subscriptions ≡ some entity
        → entity.user_id ≢ user_id)
    → (get_subscription user_id id s ≡ not_found id)
      × (update_subscription user_id id dto now s ≡ (not_found id, s))
      × (delete_subscription user_id id s ≡ (not_found id, s))
      × (acknowledge_events user_id id event_ids now s ≡ (not_found id, s))
      × (get_delivery_status user_id id s ≡ (not_found id, s))
unfolding get_subscription update_subscription delete_subscription acknowledge_events
    get_delivery_status with_found find_or_throw
stranger_refused user_id id dto event_ids now s h =
    let missing = refused user_id id (JsMap.get id s.subscriptions) h in
    (missing, rw missing refl, rw missing refl, rw missing refl, rw missing refl)

-- After a subscription is created, its owner, and no one else, gets it under its id, as it was answered;
-- what there is under any other id is as before.
pub get-create_subscription :
    (owner user_id : String) (dto : CreateSubscription) (id other : String) (now : ℕ)
    (s : SubscriptionService)
    → get_subscription user_id other (create_subscription owner dto id now s).1 ≡ (
        if id == other
        then (if owner == user_id
            then found (create_subscription owner dto id now s).0
            else not_found other)
        else get_subscription user_id other s)
unfolding get_subscription create_subscription find_or_throw owned_or
get-create_subscription owner user_id dto id other now s = elim (Bool-cases (id == other)) [
  | inl same ↦ rw (get-set, same) refl
  | inr differs ↦ rw (get-set, differs) refl
]

-- After an owner's update of a subscription that is stored under its own id, the owner gets it with the
-- fields of the request in place of the old ones, and whatever anyone gets under another id is as before.
pub get-update_subscription :
    (reader other : String) (dto : UpdateSubscription) (now : ℕ) (entity : Subscription)
    (s : SubscriptionService)
    → JsMap.get entity.id s.subscriptions ≡ some entity
    → get_subscription reader other (update_subscription entity.user_id entity.id dto now s).1 ≡ (
        if entity.id == other
        then (if entity.user_id == reader then found (updated dto now entity) else not_found other)
        else get_subscription reader other s)
unfolding get_subscription update_subscription find_or_throw with_found owned_or updated
get-update_subscription reader other dto now entity s here =
    elim (Bool-cases (entity.id == other)) [
      | inl same ↦ rw (here, eq_refl entity.user_id) (rw (get-set, same) refl)
      | inr differs ↦ rw (here, eq_refl entity.user_id) (rw (get-set, differs) refl)
    ]

-- After its owner deletes a subscription nobody gets it, no delivery record of it is left, every other
-- subscription is as before, and so is every record of another subscription.
pub delete_subscription_lem :
    (user_id id : String) (entity : Subscription) (s : SubscriptionService)
    → JsMap.get id s.subscriptions ≡ some entity
    → entity.user_id ≡ user_id
    → IsDistinct s.delivery_records
    → let after = (delete_subscription user_id id s).1 in
      ((other : String)
        → JsMap.get other after.subscriptions
          ≡ (if id == other then none else JsMap.get other s.subscriptions))
      × ((key : String)
          → JsMap.get key after.delivery_records
            ≡ keep (is_of_another id) key (JsMap.get key s.delivery_records))
unfolding delete_subscription find_or_throw with_found owned_or
delete_subscription_lem user_id id entity s here own distinct =
    rw (here, own, eq_refl user_id)
      (
        (λ other. get-delete id other s.subscriptions),
        (λ key. get-retain (is_of_another id) key s.delivery_records distinct),
      )

abbrev pub IsOwn : String → Subscription → Type 0
IsOwn user_id sub = sub.user_id ≡ user_id

module _ (user_id : String) where
  owned_by-All :
      (subs : JsMap Subscription)
      → All
          (IsOwn user_id)
          (filter (λ (sub : Subscription). sub.user_id == user_id) (JsMap.values subs))
  owned_by-All [] = tt
  owned_by-All ((k, sub) ∷ rest) = elim (Bool-cases (sub.user_id == user_id)) [
    | inl own ↦ rw own ((eq_iff sub.user_id user_id).0 own, owned_by-All rest)
    | inr not_own ↦ rw not_own (owned_by-All rest)
  ]

module _ (P : Subscription → Type 0) where
  All-insert :
      (c : Subscription → Subscription → Bool) (x : Subscription) (xs : List Subscription)
      → P x
      → All P xs
      → All P (insert c x xs)
  unfolding insert
  All-insert c x [] p h = (p, tt)
  All-insert c x (y ∷ ys) p h = elim (Bool-cases (c y x)) [
    | inl before ↦ rw before (h.0, All-insert c x ys p h.1)
    | inr after ↦ rw after (p, h)
  ]

  All-sort :
      (c : Subscription → Subscription → Bool) (xs : List Subscription)
      → All P xs
      → All P (sort c xs)
  unfolding sort
  All-sort c [] h = tt
  All-sort c (x ∷ xs) h = All-insert c x (sort c xs) h.0 (All-sort c xs h.1)

  All-take : (n : ℕ) (xs : List Subscription) → All P xs → All P (take n xs)
  All-take zero xs h = tt
  All-take (suc n) [] h = tt
  All-take (suc n) (x ∷ xs) h = (h.0, All-take n xs h.1)

  All-drop : (n : ℕ) (xs : List Subscription) → All P xs → All P (drop n xs)
  All-drop zero xs h = h
  All-drop (suc n) [] h = tt
  All-drop (suc n) (x ∷ xs) h = All-drop n xs h.1

-- Every subscription on a page that a user is given is the user's own.
pub list_subscriptions-IsOwn :
    (user_id : String) (pagination : Option PaginationQuery) (s : SubscriptionService)
    → All (IsOwn user_id) (list_subscriptions user_id pagination s).data_
unfolding list_subscriptions page_of owned_by create_offset_paginated_response
list_subscriptions-IsOwn user_id none s = owned_by-All user_id s.subscriptions
list_subscriptions-IsOwn user_id (some query) s =
    All-take (IsOwn user_id) (Option.get_or query.limit 10) _ (
      All-drop (IsOwn user_id) ((Option.get_or query.page 1 - 1) * Option.get_or query.limit 10) _
        (All-sort (IsOwn user_id) query.comes_before _ (owned_by-All user_id s.subscriptions)))

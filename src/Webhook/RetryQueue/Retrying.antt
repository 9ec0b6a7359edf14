-- ===== src/Webhook/RetryQueue/Retrying.antt =====
-- Which deliveries `retryDueDeliveries` tries again, and where it stops.
use atraport_api.Prelude.{
  ℕ, String, Bool, true, false, Option, none, some, List, [], ◌∷◌, ◌++◌, ◌≡◌, refl, sym, ap, ◌∙◌,
  arith, map, filter, filter-append, find, any, eq-false_of_ne, truthy, not, ◌&&◌, leb, All, eq_iff,
  ◌⊎◌, Bool-cases, inl, inr,
}
use text.Mathlib.Text.{◌==◌}
use atraport_api.Subscriptions.Types.{
  Subscription, DeliveryRecord, SubscriptionService, Found, not_found, found, is_retrying,
}
use atraport_api.Subscriptions.Service.{get_subscription_by_id}
use atraport_api.Subscriptions.Service.Records.{record_delivery_attempt, list_delivery_records}
use atraport_api.Webhook.{
  WebhookEvent, WebhookDeliveryResult, WebhookService, Environment, deliver_to_subscription,
}
use atraport_api.Webhook.RetryQueue.{
  is_due, is_past, has_text, due_event, event_of, deliver_found, retry_one, and_then, retry_loop,
  retry_due_deliveries,
}

abbrev pub delivery_of : WebhookDeliveryResult → String × String
delivery_of result = (result.subscription_id, result.event_id)

abbrev pub pair_of : DeliveryRecord → String × String
pair_of r = (r.subscription_id, r.event_id)

abbrev pub is_reached : ℕ → Option ℕ → Bool
is_reached now none = false
is_reached now (some t) = leb t now

module _ {J : Type 0} (env : Environment J) (history : List (WebhookEvent J)) (now : ℕ) where
  -- It waits to be tried again, the time has come, it names a subscription, and its event is in the
  -- history.
  abbrev pub is_tried : DeliveryRecord → Bool
  is_tried r =
      is_retrying r.outcome
      && is_reached now r.next_retry_at
      && not (r.subscription_id == "")
      && any (λ (item : WebhookEvent J). item.id == r.event_id) history

  is_due_eq :
      (r : DeliveryRecord)
      → is_due now r
        ≡ (is_retrying r.outcome && is_reached now r.next_retry_at && not (r.subscription_id == ""))
  unfolding is_due is_past has_text
  is_due_eq r = past_eq r.next_retry_at (is_retrying r.outcome) (text_eq r.subscription_id)
    where
      text_eq : (s : String) → has_text (truthy (some s)) ≡ not (s == "")
      text_eq String.[] = refl
      text_eq (String.◌∷◌ c s) =
          rw
            (eq-false_of_ne (String.◌∷◌ c s) ""
              (λ e. ground (arith, ap (λ t. has_text (truthy (some t))) e)))
            refl

      past_eq :
          (o : Option ℕ) (b : Bool) {u v : Bool}
          → u ≡ v
          → (b && is_past now o && u) ≡ (b && is_reached now o && v)
      past_eq none b e = ground arith
      past_eq (some t) b e = ground arith

  find-any :
      (p : WebhookEvent J → Bool) (items : List (WebhookEvent J))
      → ((any p items ≡ true) × (item : WebhookEvent J) × (find p items ≡ some item))
        ⊎ ((any p items ≡ false) × (find p items ≡ none))
  find-any p [] = inr (refl, refl)
  find-any p (item ∷ items) = elim (Bool-cases (p item)) [
    | inl yes' ↦ inl (rw yes' refl, item, rw yes' refl)
    | inr no' ↦ rw no' (find-any p items)
  ]

  due_event-tried :
      (r : DeliveryRecord)
      → ((is_tried r ≡ true)
          × (event : WebhookEvent J) × (due_event env history now r ≡ some event))
        ⊎ ((is_tried r ≡ false) × (due_event env history now r ≡ none))
  unfolding due_event event_of
  due_event-tried r = elim (find-any (λ (item : WebhookEvent J). item.id == r.event_id) history) [
    | inl (some_item, item, at) ↦ elim (Bool-cases (is_due now r)) [
      | inl due ↦ inl (ground (arith, is_due_eq r), item, rw due at)
      | inr idle ↦ inr (ground (arith, is_due_eq r), rw idle refl)
    ]
    | inr (no_item, at) ↦ inr (ground arith, ground arith)
  ]

  -- It is to be tried, but its subscription is gone.
  abbrev pub IsOrphan : SubscriptionService → DeliveryRecord → Type 0
  IsOrphan s r =
      (is_tried r ≡ true)
      × (get_subscription_by_id r.subscription_id s ≡ not_found r.subscription_id)

  -- A record that is to be tried but whose subscription is gone ends the loop.
  orphan_stops :
      (r : DeliveryRecord) (rest : List DeliveryRecord) (s : SubscriptionService)
      → IsOrphan s r
      → retry_loop env history now (r ∷ rest) s ≡ (not_found r.subscription_id, s)
  unfolding retry_loop retry_one deliver_found and_then
  orphan_stops r rest s (tried, gone) = elim (due_event-tried r) [
    | inl (same, event, due) ↦ rw due (rw gone refl)
    | inr (idle, none_due) ↦ absurd (ground (arith, tried, idle))
  ]

  -- If it is to be tried, its subscription is there, under its own id.
  abbrev pub IsServable : SubscriptionService → DeliveryRecord → Type 0
  IsServable s r =
      is_tried r ≡ true
      → (sub : Subscription) × (get_subscription_by_id r.subscription_id s ≡ found sub)
        × (sub.id ≡ r.subscription_id)

  subscriptions-deliver :
      (sub : Subscription) (event : WebhookEvent J) (s : SubscriptionService)
      → (deliver_to_subscription env sub event false now s).1.subscriptions ≡ s.subscriptions
  unfolding deliver_to_subscription record_delivery_attempt
  subscriptions-deliver sub event s = refl

  IsServable-keep :
      (s s' : SubscriptionService) (rs : List DeliveryRecord)
      → s'.subscriptions ≡ s.subscriptions
      → All (IsServable s) rs
      → All (IsServable s') rs
  unfolding get_subscription_by_id
  IsServable-keep s s' [] same h = tt
  IsServable-keep s s' (r ∷ rs) same h = (rw same h.0, IsServable-keep s s' rs same h.1)

  find-holds :
      (id : String) (items : List (WebhookEvent J)) (event : WebhookEvent J)
      → find (λ (item : WebhookEvent J). item.id == id) items ≡ some event
      → event.id ≡ id
  find-holds id [] event h = absurd (ground arith)
  find-holds id (item ∷ items) event h = elim (Bool-cases (item.id == id)) [
    | inl same ↦
        let it : item ≡ event = ground arith in
        ap (λ (e : WebhookEvent J). e.id) (sym it) ∙ (eq_iff item.id id).0 same
    | inr other ↦ find-holds id items event (ground arith)
  ]

  due_event-id :
      (r : DeliveryRecord) (event : WebhookEvent J)
      → due_event env history now r ≡ some event
      → event.id ≡ r.event_id
  unfolding due_event event_of
  due_event-id r event h = find-holds r.event_id history event (ground arith)

  -- One turn for a servable record.
  AnswersOne : DeliveryRecord → SubscriptionService → Type 0
  AnswersOne r s =
      (pushed : List WebhookDeliveryResult) × ((retry_one env history now
          (due_event env history now r) r s).0
        ≡ found pushed)
      × (map delivery_of pushed ≡ map pair_of (filter is_tried (r ∷ [])))
      × ((retry_one env history now (due_event env history now r) r s).1.subscriptions
          ≡ s.subscriptions)

  delivery_of-deliver :
      (sub : Subscription) (event : WebhookEvent J) (s : SubscriptionService)
      → delivery_of (deliver_to_subscription env sub event false now s).0 ≡ (sub.id, event.id)
  unfolding deliver_to_subscription
  delivery_of-deliver sub event s = refl

  answers_one : (r : DeliveryRecord) (s : SubscriptionService) → IsServable s r → AnswersOne r s
  unfolding AnswersOne retry_one deliver_found
  answers_one r s serve = elim (due_event-tried r) [
    | inr (idle, none_due) ↦ ([], rw none_due refl, rw idle refl, rw none_due refl)
    | inl (tried, event, due) ↦
        let (sub, there, own) = serve tried in
        let result = (deliver_to_subscription env sub event false now s).0 in
        (
          result ∷ [],
          rw due (rw there refl),
          rw tried (rw (delivery_of-deliver sub event s) (rw (own, due_event-id r event due) refl)),
          rw due (rw there (subscriptions-deliver sub event s)),
        )
  ]

  and_then-found :
      (pushed more : List WebhookDeliveryResult) (s' s'' : SubscriptionService)
      (later : Found (List WebhookDeliveryResult) × SubscriptionService)
      → later.0 ≡ found more
      → (and_then env history now (found pushed) s' later).0 ≡ found (pushed ++ more)
  unfolding and_then
  and_then-found pushed more s' s'' later h = ground arith

  map-append {ℓ κ} :
      {A : Type ℓ} {B : Type κ} (f : A → B) (xs ys : List A)
      → map f (xs ++ ys) ≡ map f xs ++ map f ys
  map-append f [] ys = refl
  map-append f (x ∷ xs) ys = ap (λ zs. f x ∷ zs) (map-append f xs ys)

  -- What the loop answers over servable records.
  Answers : List DeliveryRecord → SubscriptionService → Type 0
  Answers rs s =
      (results : List WebhookDeliveryResult) × ((retry_loop env history now rs s).0 ≡ found results)
      × (map delivery_of results ≡ map pair_of (filter is_tried rs))

  retry_loop-Answers :
      (rs : List DeliveryRecord) (s : SubscriptionService) → All (IsServable s) rs → Answers rs s
  unfolding Answers retry_loop AnswersOne
  retry_loop-Answers [] s h = ([], refl, refl)
  retry_loop-Answers (r ∷ rest) s h =
      let s' = (retry_one env history now (due_event env history now r) r s).1 in
      let (pushed, gave, pairs, same) = answers_one r s h.0 in
      let (more, later, others) = retry_loop-Answers rest s' (IsServable-keep s s' rest same h.1) in
      (
        pushed ++ more,
        rw gave (and_then-found pushed more s' s' (retry_loop env history now rest s') later),
        map-append delivery_of pushed more
            ∙ rw (pairs, others)
                (sym (map-append pair_of (filter is_tried (r ∷ [])) (filter is_tried rest))
                  ∙ ap (map pair_of) (sym (filter-append is_tried (r ∷ []) rest))),
      )

-- Where the subscription of each record that is to be tried is there, stored under its own id,
-- `retryDueDeliveries` answers with one delivery for each record that waits to be tried again, whose time
-- has come and whose event is in the history, in the records' order, and with none for the others.
pub retry_due_deliveries_lem :
    {J : Type 0} (env : Environment J) (now : ℕ) (s : WebhookService J)
    → let records = list_delivery_records s.subscriptions in
      All (IsServable env s.event_history now s.subscriptions) records
      → (results : List WebhookDeliveryResult) × ((retry_due_deliveries env now s).0
          ≡ found results)
        × (map delivery_of results
            ≡ map pair_of (filter (is_tried env s.event_history now) records))
unfolding retry_due_deliveries Answers
retry_due_deliveries_lem env now s h =
    retry_loop-Answers env s.event_history now (list_delivery_records s.subscriptions)
      s.subscriptions h

-- A record that is to be tried, its event being in the history, but whose subscription is gone ends
-- `retryDueDeliveries`: where it is the first record, none is tried, however many are due, and the state
-- is as it was.
pub retry_stops_at_orphan :
    {J : Type 0} (env : Environment J) (now : ℕ) (r : DeliveryRecord) (rest : List DeliveryRecord)
    (s : WebhookService J)
    → list_delivery_records s.subscriptions ≡ r ∷ rest
    → IsOrphan env s.event_history now s.subscriptions r
    → retry_due_deliveries env now s ≡ (not_found r.subscription_id, s)
unfolding retry_due_deliveries
retry_stops_at_orphan env now r rest s first orphan =
    rw (first, orphan_stops env s.event_history now r rest s.subscriptions orphan) refl

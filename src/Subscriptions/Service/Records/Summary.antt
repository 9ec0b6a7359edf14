-- ===== src/Subscriptions/Service/Records/Summary.antt =====
-- The delivery status that a user is shown.
use atraport_api.Prelude.{
  ℕ, ◌+◌, ◌≤◌, String, Bool, true, List, [], ◌∷◌, ◌≡◌, refl, arith, length, filter, All,
  if◌then◌else◌, Bool-cases, inl, inr,
}
use atraport_api.Prelude.JsMap
use text.Mathlib.Text.{◌==◌}
use atraport_api.Subscriptions.Types.{
  DeliveryOutcome, DeliveryRecord, DeliverySummary, SubscriptionService,
}
use atraport_api.Subscriptions.Service.{sort, insert}
use atraport_api.Subscriptions.Service.Records.{
  count_outcome, summarize, is_more_recent, records_of, status_of,
}

abbrev pub total : DeliverySummary → ℕ
total a = a.pending + a.delivered + a.acknowledged + a.failed + a.retrying

total-count_outcome :
    (o : DeliveryOutcome) (a : DeliverySummary) → total (count_outcome o a) ≡ total a + 1
unfolding count_outcome
total-count_outcome DeliveryOutcome.pending a = omega arith
total-count_outcome DeliveryOutcome.delivered a = omega arith
total-count_outcome DeliveryOutcome.acknowledged a = omega arith
total-count_outcome DeliveryOutcome.failed a = omega arith
total-count_outcome DeliveryOutcome.retrying a = omega arith

total-summarize :
    (rs : List DeliveryRecord) (a : DeliverySummary) → total (summarize rs a) ≡ total a + length rs
unfolding summarize
total-summarize [] a = omega arith
total-summarize (r ∷ rs) a =
    omega (arith, total-summarize rs (count_outcome r.outcome a), total-count_outcome r.outcome a)

-- How many elements pass a test.
abbrev pub count {ℓ} : {A : Type ℓ} → (A → Bool) → List A → ℕ
count p xs = length (filter p xs)

module _ {ℓ} {A : Type ℓ} (p : A → Bool) (comes_before : A → A → Bool) where
  count-insert :
      (x : A) (xs : List A)
      → count p (insert comes_before x xs) ≡ (if p x then 1 else 0) + count p xs
  unfolding insert
  count-insert x [] = ground arith
  count-insert x (y ∷ ys) = ground (arith, count-insert x ys)

  count-sort : (xs : List A) → count p (sort comes_before xs) ≡ count p xs
  unfolding sort
  count-sort [] = refl
  count-sort (x ∷ xs) = ground (arith, count-insert x (sort comes_before xs), count-sort xs)

-- Each is followed by those not attempted later than it.
abbrev pub IsRecentFirst : List DeliveryRecord → Type 0
IsRecentFirst [] = Unit
IsRecentFirst (r ∷ rs) =
    All (λ (other : DeliveryRecord). other.last_attempt_at ≤ r.last_attempt_at) rs
    × IsRecentFirst rs

NotAfter : ℕ → List DeliveryRecord → Type 0
NotAfter t rs = All (λ (other : DeliveryRecord). other.last_attempt_at ≤ t) rs

NotAfter-weaken : (t t' : ℕ) (rs : List DeliveryRecord) → t ≤ t' → NotAfter t rs → NotAfter t' rs
unfolding NotAfter
NotAfter-weaken t t' [] le h = tt
NotAfter-weaken t t' (r ∷ rs) le (h, k) = (omega (arith, h, le), NotAfter-weaken t t' rs le k)

NotAfter-insert :
    (t : ℕ) (r : DeliveryRecord) (rs : List DeliveryRecord)
    → r.last_attempt_at ≤ t
    → NotAfter t rs
    → NotAfter t (insert is_more_recent r rs)
unfolding insert NotAfter
NotAfter-insert t r [] le h = (le, tt)
NotAfter-insert t r (x ∷ xs) le (h, k) = elim (Bool-cases (is_more_recent x r)) [
  | inl later ↦ rw later (h, NotAfter-insert t r xs le k)
  | inr early ↦ rw early (le, (h, k))
]

insert-IsRecentFirst :
    (r : DeliveryRecord) (rs : List DeliveryRecord)
    → IsRecentFirst rs
    → IsRecentFirst (insert is_more_recent r rs)
unfolding insert NotAfter
insert-IsRecentFirst r [] h = (tt, tt)
insert-IsRecentFirst r (x ∷ xs) (h, k) = elim (Bool-cases (is_more_recent x r)) [
  | inl later ↦
      rw later
        (NotAfter-insert x.last_attempt_at r xs (ground arith) h, insert-IsRecentFirst r xs k)
  | inr early ↦
      let le : x.last_attempt_at ≤ r.last_attempt_at = ground arith in
      rw early ((le, NotAfter-weaken x.last_attempt_at r.last_attempt_at xs le h), (h, k))
]

sort-IsRecentFirst : (rs : List DeliveryRecord) → IsRecentFirst (sort is_more_recent rs)
unfolding sort
sort-IsRecentFirst [] = tt
sort-IsRecentFirst (r ∷ rs) =
    insert-IsRecentFirst r (sort is_more_recent rs) (sort-IsRecentFirst rs)

abbrev pub belongs_to : String → DeliveryRecord → Bool
belongs_to subscription_id r = r.subscription_id == subscription_id

-- The delivery status of a subscription lists the subscription's records and no others, each as often
-- as the service holds it, with the most recently attempted first, and the counts of its summary add up
-- to their number.
pub status_lem :
    (subscription_id : String) (s : SubscriptionService)
    → let own = filter (belongs_to subscription_id) (JsMap.values s.delivery_records) in
      ((p : DeliveryRecord → Bool) → count p (status_of subscription_id s).records ≡ count p own)
      × IsRecentFirst (status_of subscription_id s).records
      × (total (status_of subscription_id s).summary ≡ length own)
unfolding status_of records_of
status_lem subscription_id s =
    let own = filter (belongs_to subscription_id) (JsMap.values s.delivery_records) in
    let sorted = sort is_more_recent own in
    (
      (λ p. count-sort p is_more_recent own),
      sort-IsRecentFirst own,
      ground (
        arith,
        total-summarize sorted
            (record { pending = 0; delivered = 0; acknowledged = 0; failed = 0; retrying = 0 }),
        count_all sorted,
        count_all own,
        count-sort (λ r. true) is_more_recent own,
      ),
    )
  where
    count_all : (rs : List DeliveryRecord) → count (λ r. true) rs ≡ length rs
    count_all [] = refl
    count_all (r ∷ rs) = ground (arith, count_all rs)

-- ===== src/Subscriptions/Service/Records/Acknowledging.antt =====
-- What acknowledging does to the records, and what it answers.
use atraport_api.Prelude.{
  ℕ, suc, ◌+◌, String, Option, none, some, List, [], ◌∷◌, ◌≡◌, refl, arith, eq_refl, length, All,
  Bool-cases, inl, inr,
}
use text.Mathlib.Text.{◌==◌}
use atraport_api.Prelude.JsMap
use atraport_api.Prelude.JsMap.{JsMap, get-set}
use atraport_api.Subscriptions.Types.{DeliveryRecord, AcknowledgeResponse, is_acknowledged}
use atraport_api.Subscriptions.Service.Records.{
  record_key, to_acknowledge, acknowledge_one, count_one, acknowledge_loop,
}

-- There is no record of the event that is still to be acknowledged.
abbrev pub IsSettled : String → JsMap DeliveryRecord → String → Type 0
IsSettled subscription_id records event_id =
    to_acknowledge (JsMap.get (record_key subscription_id event_id) records) ≡ none

-- A settled record stays settled.
settled-acknowledge_one :
    (key other : String) (now : ℕ) (o : Option DeliveryRecord) (records : JsMap DeliveryRecord)
    → to_acknowledge (JsMap.get other records) ≡ none
    → to_acknowledge (JsMap.get other (acknowledge_one key now o records)) ≡ none
unfolding to_acknowledge acknowledge_one
settled-acknowledge_one key other now none records h = h
settled-acknowledge_one key other now (some r) records h =
    rw get-set
      (elim (Bool-cases (key == other)) [ inl same ↦ rw same refl | inr differs ↦ rw differs h ])

acknowledged_one :
    (key : String) (now : ℕ) (o : Option DeliveryRecord) (records : JsMap DeliveryRecord)
    → JsMap.get key records ≡ o
    → to_acknowledge (JsMap.get key (acknowledge_one key now (to_acknowledge o) records)) ≡ none
unfolding to_acknowledge acknowledge_one
acknowledged_one key now none records e = rw e refl
acknowledged_one key now (some r) records e = elim (Bool-cases (is_acknowledged r.outcome)) [
  | inl done ↦ rw done (rw e (rw done refl))
  | inr waiting ↦ rw waiting (rw (get-set, eq_refl key) refl)
]

settled-loop :
    (subscription_id other : String) (now : ℕ) (event_ids : List String)
    (records : JsMap DeliveryRecord)
    → to_acknowledge (JsMap.get other records) ≡ none
    → to_acknowledge (JsMap.get other (acknowledge_loop subscription_id now event_ids records).1)
      ≡ none
unfolding acknowledge_loop
settled-loop subscription_id other now [] records h = h
settled-loop subscription_id other now (event_id ∷ rest) records h =
    let key = record_key subscription_id event_id in
    let o = to_acknowledge (JsMap.get key records) in
    settled-loop subscription_id other now rest (acknowledge_one key now o records)
      (settled-acknowledge_one key other now o records h)

counts_one :
    (event_id : String) (o : Option DeliveryRecord) (a : AcknowledgeResponse)
    → (count_one event_id o a).acknowledged_count + length (count_one event_id o a).skipped_ids
      ≡ suc (a.acknowledged_count + length a.skipped_ids)
unfolding count_one
counts_one event_id none a = omega arith
counts_one event_id (some r) a = omega arith

-- Acknowledging some events of a subscription counts or skips each of them, and leaves none of them
-- with a record that is still to be acknowledged.
pub acknowledge_settles :
    (subscription_id : String) (now : ℕ) (event_ids : List String) (records : JsMap DeliveryRecord)
    → let after = acknowledge_loop subscription_id now event_ids records in
      (after.0.acknowledged_count + length after.0.skipped_ids ≡ length event_ids)
      × All (IsSettled subscription_id after.1) event_ids
unfolding acknowledge_loop
acknowledge_settles subscription_id now [] records = (omega arith, tt)
acknowledge_settles subscription_id now (event_id ∷ rest) records =
    let key = record_key subscription_id event_id in
    let o = to_acknowledge (JsMap.get key records) in
    let records' = acknowledge_one key now o records in
    let after = acknowledge_loop subscription_id now rest records' in
    let ih = acknowledge_settles subscription_id now rest records' in
    (
      omega (arith, counts_one event_id o after.0, ih.0),
      (
        settled-loop subscription_id key now rest records'
            (acknowledged_one key now (JsMap.get key records) records refl),
        ih.1,
      ),
    )

settled_again :
    (subscription_id : String) (now : ℕ) (event_ids : List String) (records : JsMap DeliveryRecord)
    → All (IsSettled subscription_id records) event_ids
    → acknowledge_loop subscription_id now event_ids records
      ≡ (record { acknowledged_count = 0; skipped_ids = event_ids }, records)
unfolding acknowledge_loop acknowledge_one count_one
settled_again subscription_id now [] records h = refl
settled_again subscription_id now (event_id ∷ rest) records h =
    rw h.0 (rw (settled_again subscription_id now rest records h.1) refl)

-- Acknowledging the same events of a subscription again changes no record and skips every one.
pub acknowledge_twice :
    (subscription_id : String) (now later : ℕ) (event_ids : List String)
    (records : JsMap DeliveryRecord)
    → let once = (acknowledge_loop subscription_id now event_ids records).1 in
      acknowledge_loop subscription_id later event_ids once
      ≡ (record { acknowledged_count = 0; skipped_ids = event_ids }, once)
acknowledge_twice subscription_id now later event_ids records =
    settled_again subscription_id later event_ids
      (acknowledge_loop subscription_id now event_ids records).1
      (acknowledge_settles subscription_id now event_ids records).1

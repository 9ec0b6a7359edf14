-- ===== src/Tests/RecordRuns.antt =====
-- src/subscriptions/subscription.service.ts: runs of the delivery records.
use atraport_api.Prelude.{ℕ, none, some, List, [], ◌∷◌, ◌≡◌, refl}
use atraport_api.Prelude.JsMap
use atraport_api.Prelude.JsMap.{JsMap, Every}
use atraport_api.Subscriptions.Types.{SubscriptionService, DeliveryRecord, DeliveryOutcome}
use atraport_api.Subscriptions.Service.Records.{record_key}
use atraport_api.Subscriptions.Service.Records.Scheduling.{
  Operation, attempt, acknowledge, run, IsScheduled, run-IsScheduled,
}
use atraport_api.Subscriptions.Service.Records.Retries.{attempts, retries_end}

abbrev empty_service : SubscriptionService
empty_service = record { subscriptions = []; delivery_records = [] }

abbrev operations : List (Operation × ℕ)
operations =
    (attempt "s1" "e1" DeliveryOutcome.retrying "r1", 10)
    ∷ (attempt "s1" "e1" DeliveryOutcome.retrying "r2", 2000)
    ∷ (acknowledge "ann" "s1" ("e1" ∷ []), 3000)
    ∷ []

run-IsScheduled_example : Every IsScheduled (run operations empty_service).delivery_records
run-IsScheduled_example = run-IsScheduled operations empty_service refl

retries_end_example :
    (r : DeliveryRecord) × (JsMap.get
        (record_key "s1" "e1")
        (attempts "s1" "e1" "r1" (10 ∷ 20 ∷ 30 ∷ []) empty_service).delivery_records
      ≡ some r)
    × (r.attempt_count ≡ 3)
    × (r.outcome ≡ DeliveryOutcome.retrying)
unfolding JsMap.get
retries_end_example = retries_end "s1" "e1" "r1" 10 (20 ∷ 30 ∷ []) empty_service refl

abbrev delivered_record : DeliveryRecord
delivered_record = record {
  id = "r1";
  subscription_id = "s1";
  event_id = "e1";
  outcome = DeliveryOutcome.delivered;
  first_attempt_at = 10;
  last_attempt_at = 10;
  attempt_count = 1;
  next_retry_at = none;
  created_at = 10;
  updated_at = 10;
}

abbrev records : JsMap DeliveryRecord
records = ("s1:e1", delivered_record) ∷ []

abbrev service_with_record : SubscriptionService
service_with_record = record { subscriptions = []; delivery_records = records }

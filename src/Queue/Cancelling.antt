-- ===== src/Queue/Cancelling.antt =====
-- A job that is added can be found, and cancelled unless a worker has begun it.
use atraport_api.Prelude.{String, true, none, some, ◌≡◌, ◌⊎◌}
use atraport_api.Queue.{
  JobData, BullOptions, BullState, active, Bull, QueueService, status_of, get_job_status,
  cancel_job,
}

-- What Bull promises. A job that is added under a new identifier is there, in whatever state: it waits, is delayed,
-- is held back by a paused queue, or is active already. A job that is not active can be removed, and is then gone.
pub record IsBull {P Q : Type 0} (bull : Bull P Q) : Type 0 where
  pub added :
      (job_type : String) (job : JobData P) (options : BullOptions) (q : Q)
      → bull.get_state options.job_id q ≡ none
      → (state : BullState) × (bull.get_state options.job_id (bull.add job_type job options q)
          ≡ some state)
  pub removed :
      (job_id : String) (q : Q) (state : BullState)
      → bull.get_state job_id q ≡ some state
      → ((state ≡ active)
          ⊎ ((left : Q) × (bull.remove job_id q ≡ some left) × (bull.get_state job_id left ≡ none)))

module _ {P Q : Type 0} (bull : Bull P Q) where
  -- No queue has the job.
  abbrev pub IsNew : String → QueueService Q → Type 0
  IsNew job_id s =
      (bull.get_state job_id s.default_queue ≡ none)
      × (bull.get_state job_id s.high_priority_queue ≡ none)
      × (bull.get_state job_id s.low_priority_queue ≡ none)

  -- A job of the state is found; unless it is active, cancelling it succeeds and leaves it in no queue.
  abbrev pub Settled : String → BullState → QueueService Q → Type 0
  Settled job_id state s =
      (get_job_status bull job_id s ≡ some (status_of state))
      × ((state ≡ active)
          ⊎ ((left : QueueService Q) × (cancel_job bull job_id s ≡ some (true, left))
              × (get_job_status bull job_id left ≡ none)))

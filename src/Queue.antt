-- ===== src/Queue.antt =====
-- src/modules/queue/services/queue.service.ts. A queue of Bull is a parameter: what its calls answer, and the
-- queue that they leave. A new identifier is an argument; a log line of a job is its text.
pub mod Cancelling
use atraport_api.Prelude.{
  ℕ, zero, suc, String, Bool, true, false, Option, none, some, List, [], ◌∷◌, map, if◌then◌else◌,
}

pub data JobPriority : Type 0 where
  high medium low : JobPriority

pub data JobStatus : Type 0 where
  pending processing completed failed cancelled retrying dead_lettered : JobStatus

pub record JobData (P : Type 0) : Type 0 where
  pub id : String
  pub job_type : String
  pub payload : P
  pub priority : JobPriority
  pub retry_count : ℕ
  pub max_retries : ℕ
  pub timeout : ℕ
  pub scheduled_at : Option ℕ
  pub metadata : Option P
  -- The two properties that `scheduleJob` adds.
  pub scheduled : Bool
  pub cron_expression : Option String

-- The options of `queue.add`; the backoff is exponential, from a second.
pub record BullOptions : Type 0 where
  pub job_id : String
  pub priority : ℕ
  pub attempts : ℕ
  pub backoff_delay : ℕ
  pub timeout : ℕ
  pub delay : ℕ

-- The states of a job that Bull tells; `other` is paused or stuck.
pub data BullState : Type 0 where
  waiting delayed active completed failed other : BullState

pub record Counts : Type 0 where
  pub waiting : ℕ
  pub active : ℕ
  pub completed : ℕ
  pub failed : ℕ
  pub delayed : ℕ

pub record Bull (P Q : Type 0) : Type 0 where
  pub add : String → JobData P → BullOptions → Q → Q
  -- `getJob(id)` with the job's `getState()`.
  pub get_state : String → Q → Option BullState
  pub get_logs : String → Q → List String
  -- `job.remove()`, `none` where it throws, as for a job that a worker holds.
  pub remove : String → Q → Option Q
  pub counts : Q → Counts

pub record JobOptions (P : Type 0) : Type 0 where
  pub priority : Option JobPriority
  pub max_retries : Option ℕ
  pub timeout : Option ℕ
  pub delay : Option ℕ
  pub scheduled_at : Option ℕ
  pub metadata : Option P

pub record QueueService (Q : Type 0) : Type 0 where
  pub default_queue : Q
  pub high_priority_queue : Q
  pub low_priority_queue : Q

-- `n || fallback`: a 0 is replaced too.
unfoldable pub or_number : Option ℕ → ℕ → ℕ
or_number none fallback = fallback
or_number (some zero) fallback = fallback
or_number (some (suc n)) fallback = suc n

abbrev pub or_medium : Option JobPriority → JobPriority
or_medium none = medium
or_medium (some priority) = priority

unfoldable pub get_bull_priority : JobPriority → ℕ
get_bull_priority high = 1
get_bull_priority medium = 3
get_bull_priority low = 5

abbrev pub status_of : BullState → JobStatus
status_of waiting = pending
status_of delayed = pending
status_of active = processing
status_of completed = completed
status_of failed = failed
status_of other = pending

-- The first queue, in the order of the source's list, that has the job.
unfoldable pub first_found :
    Option BullState → Option BullState → Option BullState → Option (JobPriority × BullState)
first_found (some state) h l = some (medium, state)
first_found none (some state) l = some (high, state)
first_found none none (some state) = some (low, state)
first_found none none none = none

module _ {P Q : Type 0} (bull : Bull P Q) where
  -- The queue of a priority, changed.
  unfoldable pub in_queue : JobPriority → (Q → Q) → QueueService Q → QueueService Q
  in_queue high f s = record s { high_priority_queue = f s.high_priority_queue }
  in_queue medium f s = record s { default_queue = f s.default_queue }
  in_queue low f s = record s { low_priority_queue = f s.low_priority_queue }

  abbrev pub job_data : String → String → P → JobOptions P → JobData P
  job_data job_id job_type payload options = record {
    id = job_id;
    job_type = job_type;
    payload = payload;
    priority = or_medium options.priority;
    retry_count = 0;
    max_retries = or_number options.max_retries 3;
    timeout = or_number options.timeout 30000;
    scheduled_at = options.scheduled_at;
    metadata = options.metadata;
    scheduled = false;
    cron_expression = none;
  }

  abbrev pub bull_options : String → JobOptions P → BullOptions
  bull_options job_id options = record {
    job_id = job_id;
    priority = get_bull_priority (or_medium options.priority);
    attempts = or_number options.max_retries 3;
    backoff_delay = 1000;
    timeout = or_number options.timeout 30000;
    delay = or_number options.delay 0;
  }

  unfoldable pub add_job :
      String → String → P → JobOptions P → QueueService Q → String × QueueService Q
  add_job job_id job_type payload options s =
      let put =
        bull.add job_type (job_data job_id job_type payload options)
          (bull_options job_id options) in
      (job_id, in_queue (or_medium options.priority) put s)

  -- The options of `scheduleJob` have neither a delay nor a time.
  unfoldable pub schedule_job :
      String → String → P → String → JobOptions P → QueueService Q → String × QueueService Q
  schedule_job job_id job_type payload cron_expression options s =
      let plain = record options { delay = none; scheduled_at = none } in
      let data_ = record (job_data job_id job_type payload plain) {
        scheduled = true;
        cron_expression = some cron_expression;
      } in
      let put = bull.add job_type data_ (bull_options job_id plain) in
      (job_id, in_queue (or_medium options.priority) put s)

  unfoldable pub found_in : String → QueueService Q → Option (JobPriority × BullState)
  found_in job_id s =
      first_found (bull.get_state job_id s.default_queue)
        (bull.get_state job_id s.high_priority_queue) (bull.get_state job_id s.low_priority_queue)

  abbrev pub status_found : Option (JobPriority × BullState) → Option JobStatus
  status_found none = none
  status_found (some (priority, state)) = some (status_of state)

  unfoldable pub get_job_status : String → QueueService Q → Option JobStatus
  get_job_status job_id s = status_found (found_in job_id s)

  abbrev pub queue_of : JobPriority → QueueService Q → Q
  queue_of high s = s.high_priority_queue
  queue_of medium s = s.default_queue
  queue_of low s = s.low_priority_queue

  abbrev pub cancelled_in : JobPriority → Option Q → QueueService Q → Option (Bool × QueueService Q)
  cancelled_in priority none s = none
  cancelled_in priority (some left) s = some (true, in_queue priority (λ q. left) s)

  abbrev pub cancel_found :
      String → Option (JobPriority × BullState) → QueueService Q → Option (Bool × QueueService Q)
  cancel_found job_id none s = some (false, s)
  cancel_found job_id (some (priority, state)) s =
      cancelled_in priority (bull.remove job_id (queue_of priority s)) s

  -- `none` where the removal throws: it is not caught.
  unfoldable pub cancel_job : String → QueueService Q → Option (Bool × QueueService Q)
  cancel_job job_id s = cancel_found job_id (found_in job_id s) s

  abbrev pub history_found :
      String → ℕ → Option (JobPriority × BullState) → QueueService Q → List (ℕ × String)
  history_found job_id now none s = []
  history_found job_id now (some (priority, state)) s =
      map (λ message. (now, message)) (bull.get_logs job_id (queue_of priority s))

  unfoldable pub get_job_history : String → ℕ → QueueService Q → List (ℕ × String)
  get_job_history job_id now s = history_found job_id now (found_in job_id s) s

  unfoldable pub get_queue_metrics : QueueService Q → List (String × Counts)
  get_queue_metrics s =
      ("default", bull.counts s.default_queue)
      ∷ ("high-priority", bull.counts s.high_priority_queue)
      ∷ ("low-priority", bull.counts s.low_priority_queue)
      ∷ []

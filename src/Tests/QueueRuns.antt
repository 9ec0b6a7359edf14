-- ===== src/Tests/QueueRuns.antt =====
-- Runs of the job queue over a queue that keeps the states of its jobs.
use atraport_api.Prelude.{ℕ, String, Option, ltb, none, some, [], ◌∷◌, if◌then◌else◌}
use atraport_api.Prelude.JsMap
use atraport_api.Prelude.JsMap.{JsMap}
use atraport_api.Queue.{
  high, JobOptions, BullState, waiting, delayed, active, completed, failed, Bull, QueueService,
}

abbrev state_of : ℕ → BullState
state_of delay = if ltb 0 delay then delayed else waiting

abbrev if_free : JsMap BullState → BullState → Option (JsMap BullState)
if_free left active = none
if_free left _ = some left

abbrev remove_from : String → JsMap BullState → Option BullState → Option (JsMap BullState)
remove_from job_id q none = none
remove_from job_id q (some state) = if_free (JsMap.delete job_id q) state

-- A job that is there is not added again.
abbrev unless_there : String → BullState → JsMap BullState → Option BullState → JsMap BullState
unless_there job_id state q none = JsMap.set job_id state q
unless_there job_id state q (some there) = q

abbrev states : Bull ℕ (JsMap BullState)
states = record {
  add = λ job_type job options q.
      unless_there options.job_id (state_of options.delay) q (JsMap.get options.job_id q);
  get_state = JsMap.get;
  get_logs = λ job_id q. [];
  remove = λ job_id q. remove_from job_id q (JsMap.get job_id q);
  counts = λ q. record { waiting = 0; active = 0; completed = 0; failed = 0; delayed = 0 };
}

abbrev options : JobOptions ℕ
options = record {
  priority = some high;
  max_retries = none;
  timeout = none;
  delay = some 500;
  scheduled_at = none;
  metadata = none;
}

abbrev queues : QueueService (JsMap BullState)
queues = record {
  default_queue = ("a", waiting) ∷ [];
  high_priority_queue = ("b", waiting) ∷ [];
  low_priority_queue = [];
}

-- ===== src/Tests/BufferRuns.antt =====
-- src/monitoring: runs of the log, latency and trace buffers.
use atraport_api.Prelude.{ℕ, String, none, some, List, [], ◌∷◌, ◌≡◌, filter, take, length}
use atraport_api.Monitoring.Logs.{
  LogEntry, LogQueryFilter, max_log_buffer, limit_or_default, query_logs,
}
use atraport_api.Monitoring.Logs.Queries.{is_match, collected, query_logs_lem}
use atraport_api.Monitoring.Performance.{Performance, initial_performance}

abbrev entry : String → ℕ → LogEntry
entry level t = record {
  timestamp = t;
  level = level;
  context = some "Cache";
  message = "hit";
  trace_id = none;
  stack = none;
}

abbrev entries : List LogEntry
entries = entry "warn" 9 ∷ entry "info" 7 ∷ entry "warn" 3 ∷ []

abbrev warnings : LogQueryFilter
warnings = record {
  level = some "warn";
  context = some "CACHE";
  trace_id = none;
  search = none;
  limit = some 1;
  start_time = none;
  end_time = none;
}

query_logs_lem_example :
    let found = filter (is_match warnings) (take max_log_buffer entries) in
    query_logs warnings (collected entries)
    ≡ (length found, take (limit_or_default warnings.limit) found)
query_logs_lem_example = query_logs_lem warnings entries

abbrev measured : Performance
measured = record initial_performance { latencies = 900 ∷ 100 ∷ 400 ∷ [] }

abbrev trace : String
trace = "0123456789abcdef0123456789abcdef"

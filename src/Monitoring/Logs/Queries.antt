-- ===== src/Monitoring/Logs/Queries.antt =====
-- What a query of the collected logs answers.
use atraport_api.Prelude.{
  Bool, true, ◌&&◌, Option, none, some, List, [], ◌∷◌, ◌≡◌, refl, sym, ap, ◌∙◌, arith, filter, take,
  length, truthy,
}
use atraport_api.Monitoring.Buffers.{unshift_bounded, unshift_newest}
use atraport_api.Monitoring.Logs.{
  LogEntry, LogQueryFilter, max_log_buffer, add_log, filter_if, has_level, has_context,
  has_trace_id, mentions, is_from, is_until, limit_or_default, query_logs,
}

abbrev if_asked {ℓ} : {V : Type ℓ} → Option V → (V → LogEntry → Bool) → LogEntry → Bool
if_asked none test l = true
if_asked (some v) test l = test v l

-- The entry meets every part of the filter.
abbrev pub is_match : LogQueryFilter → LogEntry → Bool
is_match f l =
    if_asked (truthy f.level) has_level l
    && if_asked (truthy f.context) has_context l
    && if_asked (truthy f.trace_id) has_trace_id l
    && if_asked (truthy f.search) mentions l
    && if_asked f.start_time is_from l
    && if_asked f.end_time is_until l

filter-filter :
    (p q : LogEntry → Bool) (logs : List LogEntry)
    → filter p (filter q logs) ≡ filter (λ l. q l && p l) logs
filter-filter p q [] = refl
filter-filter p q (l ∷ logs) = ground (arith, filter-filter p q logs)

filter_true : (logs : List LogEntry) → filter (λ l. true) logs ≡ logs
filter_true [] = refl
filter_true (l ∷ logs) = ap (λ ls. l ∷ ls) (filter_true logs)

filter_if-eq {ℓ} :
    {V : Type ℓ} (o : Option V) (test : V → LogEntry → Bool) (logs : List LogEntry)
    → filter_if o test logs ≡ filter (if_asked o test) logs
filter_if-eq none test logs = sym (filter_true logs)
filter_if-eq (some v) test logs = refl

-- One more filter of the chain.
narrow {ℓ} :
    {V : Type ℓ} (o : Option V) (test : V → LogEntry → Bool) (p : LogEntry → Bool)
    (logs buffer : List LogEntry)
    → logs ≡ filter p buffer
    → filter_if o test logs ≡ filter (λ l. p l && if_asked o test l) buffer
narrow o test p logs buffer e =
    filter_if-eq o test logs
    ∙ ap (filter (if_asked o test)) e
    ∙ filter-filter (if_asked o test) p buffer

-- The filters in turn keep what meets them all.
query_logs-match :
    (f : LogQueryFilter) (buffer : List LogEntry)
    → let found = filter (is_match f) buffer in
      query_logs f buffer ≡ (length found, take (limit_or_default f.limit) found)
unfolding query_logs
query_logs-match f buffer =
    ap (λ (found : List LogEntry). (length found, take (limit_or_default f.limit) found))
      (narrow f.end_time is_until _ _ buffer (
        narrow f.start_time is_from _ _ buffer (
          narrow (truthy f.search) mentions _ _ buffer (
            narrow (truthy f.trace_id) has_trace_id _ _ buffer (
              narrow (truthy f.context) has_context _ _ buffer
                (filter_if-eq (truthy f.level) has_level buffer))))))

-- The buffer after these entries were added, the newest first.
abbrev pub collected : List LogEntry → List LogEntry
collected [] = []
collected (entry ∷ earlier) = add_log entry (collected earlier)

collected_newest : (entries : List LogEntry) → collected entries ≡ take max_log_buffer entries
unfolding add_log
collected_newest [] = refl
collected_newest (entry ∷ earlier) =
    ap (unshift_bounded max_log_buffer entry) (collected_newest earlier)
    ∙ unshift_newest max_log_buffer entry earlier

-- Whatever entries were added, a query finds what it would find in the complete log, cut to the newest 5000:
-- how many of them meet every part of the filter, and the newest of these up to the limit.
pub query_logs_lem :
    (f : LogQueryFilter) (entries : List LogEntry)
    → let found = filter (is_match f) (take max_log_buffer entries) in
      query_logs f (collected entries) ≡ (length found, take (limit_or_default f.limit) found)
query_logs_lem f entries =
    ap (query_logs f) (collected_newest entries) ∙ query_logs-match f (take max_log_buffer entries)

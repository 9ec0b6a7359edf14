-- ===== src/Monitoring/Logs.antt =====
-- src/monitoring/log-aggregation.service.ts. Times are in milliseconds.
pub mod Queries
use atraport_api.Prelude.{
  ℕ, zero, suc, ◌+◌, String, Bool, true, false, not, ◌&&◌, ◌||◌, Option, none, some, List, [], ◌∷◌,
  leb, filter, take, length, truthy, to_lower_case, if◌then◌else◌,
}
use text.Mathlib.Text.{◌==◌, starts_with}
use atraport_api.Monitoring.Buffers.{unshift_bounded}

pub record LogEntry : Type 0 where
  pub timestamp : ℕ
  pub level : String
  pub context : Option String
  pub message : String
  pub trace_id : Option String
  pub stack : Option String

pub record LogQueryFilter : Type 0 where
  pub level : Option String
  pub context : Option String
  pub trace_id : Option String
  pub search : Option String
  pub limit : Option ℕ
  pub start_time : Option ℕ
  pub end_time : Option ℕ

abbrev pub max_log_buffer : ℕ
max_log_buffer = 5000

unfoldable pub add_log : LogEntry → List LogEntry → List LogEntry
add_log entry buffer = unshift_bounded max_log_buffer entry buffer

-- `s.includes(t)`
unfoldable pub includes : String → String → Bool
includes String.[] t = starts_with "" t
includes (String.◌∷◌ c s) t = starts_with (String.◌∷◌ c s) t || includes s t

-- `l.context && l.context.toLowerCase().includes(t)`
abbrev pub includes_lower : Option String → String → Bool
includes_lower none t = false
includes_lower (some s) t = includes (to_lower_case s) t

abbrev pub is_text : Option String → String → Bool
is_text none t = false
is_text (some s) t = s == t

-- `if (value) result = result.filter(...)`
abbrev pub filter_if {ℓ} :
    {V : Type ℓ} → Option V → (V → LogEntry → Bool) → List LogEntry → List LogEntry
filter_if none test logs = logs
filter_if (some v) test logs = filter (test v) logs

abbrev pub has_level : String → LogEntry → Bool
has_level level l = l.level == level

abbrev pub has_context : String → LogEntry → Bool
has_context context l = includes_lower (truthy l.context) (to_lower_case context)

abbrev pub has_trace_id : String → LogEntry → Bool
has_trace_id trace_id l = is_text l.trace_id trace_id

abbrev pub mentions : String → LogEntry → Bool
mentions search l =
    let t = to_lower_case search in
    includes (to_lower_case l.message) t
    || includes_lower (truthy l.context) t
    || includes_lower (truthy l.stack) t

abbrev pub is_from : ℕ → LogEntry → Bool
is_from start l = leb start l.timestamp

abbrev pub is_until : ℕ → LogEntry → Bool
is_until stop l = leb l.timestamp stop

abbrev pub limit_or_default : Option ℕ → ℕ
limit_or_default none = 100
limit_or_default (some zero) = 100
limit_or_default (some (suc n)) = suc n

-- The number of entries found, and the first ones.
unfoldable pub query_logs : LogQueryFilter → List LogEntry → ℕ × List LogEntry
query_logs f buffer =
    let with_level = filter_if (truthy f.level) has_level buffer in
    let with_context = filter_if (truthy f.context) has_context with_level in
    let with_trace = filter_if (truthy f.trace_id) has_trace_id with_context in
    let with_search = filter_if (truthy f.search) mentions with_trace in
    let with_start = filter_if f.start_time is_from with_search in
    let result = filter_if f.end_time is_until with_start in
    (length result, take (limit_or_default f.limit) result)

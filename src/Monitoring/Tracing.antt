-- ===== src/Monitoring/Tracing.antt =====
-- src/monitoring/tracing.service.ts. A random identifier is an argument; the OpenTelemetry text is not
-- modelled. An attribute's value is text.
pub mod Traceparent
use Prim.Native.Char.{Char, code}
use atraport_api.Prelude.{
  ℕ, zero, suc, ◌+◌, ◌-◌, String, Bool, true, false, ◌&&◌, ◌||◌, Option, none, some, List, [], ◌∷◌,
  ◌++◌, leb, nat_eq, length, filter, take, ◌<>◌, truthy, split, trim, if◌then◌else◌,
}
use text.Mathlib.Text.{◌==◌}
use atraport_api.Prelude.JsMap
use atraport_api.Prelude.JsMap.{JsMap}
use atraport_api.Monitoring.Buffers.{unshift_bounded}

pub data SpanKind : Type 0 where
  server client internal : SpanKind

pub data SpanStatus : Type 0 where
  ok error unset : SpanStatus

pub record SpanEvent : Type 0 where
  pub name : String
  pub timestamp_ms : ℕ
  pub attributes : JsMap String

pub record TraceSpan : Type 0 where
  pub trace_id : String
  pub span_id : String
  pub parent_span_id : Option String
  pub name : String
  pub kind : SpanKind
  pub start_time_ms : ℕ
  pub end_time_ms : Option ℕ
  pub duration_ms : Option ℕ
  pub status_code : SpanStatus
  pub attributes : JsMap String
  pub events : List SpanEvent

pub record SpanOptions : Type 0 where
  pub trace_id : Option String
  pub parent_span_id : Option String
  pub kind : Option SpanKind
  pub attributes : Option (JsMap String)

abbrev pub max_spans : ℕ
max_spans = 1000

-- `s.length`, for text within the first 65536 characters.
unfoldable pub text_length : String → ℕ
text_length String.[] = 0
text_length (String.◌∷◌ c s) = suc (text_length s)

-- The trace's and the parent's identifiers.
unfoldable pub from_parts : List String → Option (String × String)
from_parts (version ∷ (trace_id ∷ (parent ∷ (flags ∷ rest)))) =
    if version == "00" && nat_eq (text_length trace_id) 32 && nat_eq (text_length parent) 16
    then some (trace_id, parent)
    else none
from_parts _ = none

abbrev pub parse_given : Option String → Option (String × String)
parse_given none = none
parse_given (some traceparent) = from_parts (split "-" (trim traceparent))

unfoldable pub parse_traceparent : Option String → Option (String × String)
parse_traceparent traceparent = parse_given (truthy traceparent)

unfoldable pub format_traceparent : String → String → String
format_traceparent trace_id span_id = "00-" <> trace_id <> "-" <> span_id <> "-01"

abbrev pub or_new {ℓ} : {A : Type ℓ} → Option A → A → A
or_new none a = a
or_new (some b) a = b

unfoldable pub start_span : String → SpanOptions → String → String → ℕ → TraceSpan
start_span name options new_trace_id new_span_id now = record {
  trace_id = or_new (truthy options.trace_id) new_trace_id;
  span_id = new_span_id;
  parent_span_id = options.parent_span_id;
  name = name;
  kind = or_new options.kind server;
  start_time_ms = now;
  end_time_ms = none;
  duration_ms = none;
  status_code = unset;
  attributes = or_new options.attributes [];
  events = [];
}

-- `{ ...attributes, ...more }`
unfoldable pub assign : JsMap String → JsMap String → JsMap String
assign attributes [] = attributes
assign attributes ((k, v) ∷ more) = assign (JsMap.set k v attributes) more

unfoldable pub record_span : TraceSpan → List TraceSpan → List TraceSpan
record_span span spans = unshift_bounded max_spans span spans

-- The clock does not go backwards between the start and the end.
unfoldable pub finished : TraceSpan → SpanStatus → Option (JsMap String) → ℕ → TraceSpan
finished span status more now = record span {
  end_time_ms = some now;
  duration_ms = some (now - span.start_time_ms);
  status_code = status;
  attributes = assign span.attributes (or_new more []);
}

unfoldable pub finish_span :
    TraceSpan → SpanStatus → Option (JsMap String) → ℕ → List TraceSpan → TraceSpan × List TraceSpan
finish_span span status more now spans =
    let done = finished span status more now in (done, record_span done spans)

unfoldable pub add_span_event : TraceSpan → String → JsMap String → ℕ → TraceSpan
add_span_event span name attributes now = record span {
  events =
      span.events ++ (record { name = name; timestamp_ms = now; attributes = attributes } ∷ []);
}

unfoldable pub set_span_attribute : TraceSpan → String → String → TraceSpan
set_span_attribute span key value = record span { attributes = JsMap.set key value span.attributes }

abbrev pub of_trace : Option String → List TraceSpan → List TraceSpan
of_trace none spans = spans
of_trace (some id) spans = filter (λ (s : TraceSpan). s.trace_id == id) spans

unfoldable pub get_recent_traces : ℕ → Option String → List TraceSpan → List TraceSpan
get_recent_traces limit trace_id spans = take limit (of_trace (truthy trace_id) spans)

-- ===== src/Subscriptions/Filter.antt =====
-- src/subscriptions/dto/event-filter.dto.ts and the filter part of subscription.service.ts. A severity
-- is the text that arrives, since nothing checks it against the enumeration before `validateFilter`.
pub mod Laws
use atraport_api.Prelude.{
  ℕ, String, Bool, true, false, not, ◌&&◌, Option, none, some, List, [], ◌∷◌, ◌++◌, map, ltb,
  filter, any, all, ◌<>◌, truthy, opt_eq, if◌then◌else◌,
}
use text.Mathlib.Text.{◌==◌}
use atraport_api.Prelude.JsMap
use atraport_api.Prelude.JsMap.{JsMap}

pub record EventFilter : Type 0 where
  pub event_types : List String
  pub min_severity : Option String
  pub custom_predicates : Option (JsMap String)

pub record Event : Type 0 where
  pub event_type : String
  pub severity : Option String
  pub metadata : Option (JsMap String)

pub data ValidateFilterResponse : Type 0 where
  valid : String → ValidateFilterResponse
  invalid : List String → ValidateFilterResponse

abbrev pub available_event_types : List String
available_event_types =
    "portfolio.created" ∷ "portfolio.updated" ∷ "portfolio.deleted" ∷ "asset.price_change"
    ∷ "asset.added" ∷ "asset.removed" ∷ "risk.score_updated" ∷ "risk.threshold_breached"
    ∷ "contract.deployed" ∷ "contract.executed" ∷ "contract.failed" ∷ "transaction.confirmed"
    ∷ "transaction.failed" ∷ []

abbrev pub severities : List String
severities = "low" ∷ "medium" ∷ "high" ∷ "critical" ∷ []

-- `SEVERITY_RANK[severity]`
unfoldable pub severity_rank : String → Option ℕ
severity_rank s =
    if s == "low"
    then some 0
    else if s == "medium"
    then some 1
    else if s == "high"
    then some 2
    else if s == "critical"
    then some 3
    else none

-- `xs.includes(x)`
unfoldable pub includes : List String → String → Bool
includes xs x = any (λ item. item == x) xs

-- `a < b`, which is false where one of them is undefined.
abbrev pub is_below : Option ℕ → Option ℕ → Bool
is_below (some a) (some b) = ltb a b
is_below _ _ = false

-- The severity guard, past the test that both are there.
unfoldable pub is_too_mild : Option String → Option String → Bool
is_too_mild (some least) (some severity) = is_below (severity_rank severity) (severity_rank least)
is_too_mild _ _ = false

metadata_get : Option (JsMap String) → String → Option String
metadata_get none key = none
metadata_get (some m) key = JsMap.get key m

-- One turn of the loop over the predicates.
unfoldable pub predicate_holds : Option (JsMap String) → String × String → Bool
unfolding metadata_get
predicate_holds metadata (key, value) = opt_eq (metadata_get metadata key) (some value)

unfoldable pub predicates_hold : Option (JsMap String) → Option (JsMap String) → Bool
predicates_hold none metadata = true
predicates_hold (some predicates) metadata = all (predicate_holds metadata) predicates

unfoldable pub matches_filter : EventFilter → Event → Bool
matches_filter f event =
    if not (includes f.event_types event.event_type)
    then false
    else if is_too_mild (truthy f.min_severity) (truthy event.severity)
    then false
    else predicates_hold f.custom_predicates event.metadata

-- `xs.join(separator)`
unfoldable pub join : String → List String → String
join separator [] = ""
join separator (x ∷ []) = x
join separator (x ∷ (y ∷ ys)) = x <> separator <> join separator (y ∷ ys)

severity_part : Option String → List String
severity_part none = []
severity_part (some s) = ("Minimum severity: " <> s) ∷ []

equation : String × String → String
equation (k, v) = k <> "=" <> v

predicates_part : Option (JsMap String) → List String
unfolding equation join
predicates_part none = []
predicates_part (some []) = []
predicates_part (some (p ∷ ps)) =
    ("Custom predicates: {" <> join ", " (map equation (p ∷ ps)) <> "}") ∷ []

unfoldable pub compile_filter_summary : EventFilter → String
unfolding severity_part predicates_part
compile_filter_summary f = join " | " (
    (("Event types: [" <> join ", " f.event_types <> "]") ∷ severity_part (truthy f.min_severity))
    ++ predicates_part f.custom_predicates)

unfoldable pub unknown_type_errors : List String → List String
unknown_type_errors [] = []
unknown_type_errors (t ∷ ts) = ("Unknown event types: " <> join ", " (t ∷ ts)) ∷ []

unfoldable pub event_type_errors : List String → List String
event_type_errors [] = "filter.eventTypes must contain at least one event type" ∷ []
event_type_errors (t ∷ ts) =
    unknown_type_errors (filter (λ name. not (includes available_event_types name)) (t ∷ ts))

unfoldable pub severity_errors : Option String → List String
severity_errors none = []
severity_errors (some s) =
    if includes severities s
    then []
    else ("Invalid minSeverity \"" <> s <> "\". Must be one of: " <> join ", " severities) ∷ []

unfoldable pub validation_of : List String → EventFilter → ValidateFilterResponse
validation_of [] f = valid (compile_filter_summary f)
validation_of (e ∷ es) f = invalid (e ∷ es)

unfoldable pub validate_filter : EventFilter → ValidateFilterResponse
validate_filter f =
    validation_of (event_type_errors f.event_types ++ severity_errors f.min_severity) f

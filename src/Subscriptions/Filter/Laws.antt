-- ===== src/Subscriptions/Filter/Laws.antt =====
-- What the filter of subscription.service.ts accepts.
use atraport_api.Prelude.{
  ℕ, ◌≤◌, String, true, false, not, Option, none, some, List, [], ◌∷◌, ◌++◌, ◌≡◌, refl, ◌↔◌, ◌≢◌,
  ◌⊎◌, arith, eq_iff, opt_eq_iff, filter, all, All, truthy, Bool-cases, inl, inr,
}
use text.Mathlib.Text.{◌==◌}
use atraport_api.Prelude.JsMap
use atraport_api.Prelude.JsMap.{JsMap}
use atraport_api.Subscriptions.Filter.{
  EventFilter, Event, valid, available_event_types, severities, severity_rank, includes, is_below,
  is_too_mild, predicate_holds, predicates_hold, matches_filter, event_type_errors,
  unknown_type_errors, severity_errors, validation_of, compile_filter_summary, validate_filter,
}

-- The text is one of the list's.
abbrev pub Has : String → List String → Type 0
Has x [] = ⊥
Has x (y ∷ ys) = (y ≡ x) ⊎ Has x ys

includes_iff : (xs : List String) (x : String) → (includes xs x ≡ true) ↔ Has x xs
unfolding includes
includes_iff [] x = ((λ h. absurd (ground arith)), (λ h. absurd h))
includes_iff (y ∷ ys) x =
    let ih = includes_iff ys x in
    elim (Bool-cases (y == x)) [
      | inl same ↦ ((λ h. inl ((eq_iff y x).0 same)), (λ h. rw same refl))
      | inr other ↦ (
        (λ h. inr (ih.0 (ground arith))),
        (λ h. elim h [ inl e ↦ absurd (ground (arith, eq_iff y x)) | inr k ↦ rw other (ih.1 k) ]),
      )
    ]

-- Where both ranks are known, the event's is at least the least one asked for.
abbrev pub Reaches : Option ℕ → Option ℕ → Type 0
Reaches (some b) (some a) = a ≤ b
Reaches _ _ = Unit

abbrev pub IsSevere : Option String → Option String → Type 0
IsSevere (some least) (some severity) = Reaches (severity_rank severity) (severity_rank least)
IsSevere _ _ = Unit

below_iff : (b a : Option ℕ) → (is_below b a ≡ false) ↔ Reaches b a
below_iff none a = ((λ h. tt), (λ h. refl))
below_iff (some b) none = ((λ h. tt), (λ h. refl))
below_iff (some b) (some a) = ground arith

too_mild_iff :
    (least severity : Option String)
    → (is_too_mild least severity ≡ false) ↔ IsSevere least severity
unfolding is_too_mild
too_mild_iff none severity = ((λ h. tt), (λ h. refl))
too_mild_iff (some l) none = ((λ h. tt), (λ h. refl))
too_mild_iff (some l) (some s) = below_iff (severity_rank s) (severity_rank l)

-- Each predicate's key has its value in the metadata.
abbrev pub AllHold : Option (JsMap String) → Option (JsMap String) → Type 0
AllHold none metadata = Unit
AllHold (some predicates) none = predicates ≡ []
AllHold (some predicates) (some m) =
    All (λ (p : String × String). JsMap.get p.0 m ≡ some p.1) predicates

predicate_holds_iff :
    (m : JsMap String) (p : String × String)
    → (predicate_holds (some m) p ≡ true) ↔ (JsMap.get p.0 m ≡ some p.1)
unfolding predicate_holds
predicate_holds_iff m (key, value) = opt_eq_iff (JsMap.get key m) (some value)

all_iff :
    (m : JsMap String) (predicates : JsMap String)
    → (all (predicate_holds (some m)) predicates ≡ true) ↔ AllHold (some predicates) (some m)
all_iff m [] = ((λ h. tt), (λ h. refl))
all_iff m (p ∷ ps) = ground (arith, predicate_holds_iff m p, all_iff m ps)

predicates_hold_iff :
    (predicates metadata : Option (JsMap String))
    → (predicates_hold predicates metadata ≡ true) ↔ AllHold predicates metadata
unfolding predicates_hold predicate_holds
predicates_hold_iff none metadata = ((λ h. tt), (λ h. refl))
predicates_hold_iff (some predicates) (some m) = all_iff m predicates
predicates_hold_iff (some []) none = ((λ h. refl), (λ h. refl))
predicates_hold_iff (some (p ∷ ps)) none =
    ((λ h. absurd (ground arith)), (λ h. absurd (ground arith)))

-- An event passes the filter exactly if its type is one of the filter's, its severity, where both are
-- given and known, is at least the filter's, and each of the filter's predicates is an entry of its
-- metadata.
pub matches_filter_iff :
    (f : EventFilter) (event : Event)
    → (matches_filter f event ≡ true) ↔ (
        Has event.event_type f.event_types
        × IsSevere (truthy f.min_severity) (truthy event.severity)
        × AllHold f.custom_predicates event.metadata)
unfolding matches_filter
matches_filter_iff f event =
    let types = includes_iff f.event_types event.event_type in
    let mild = too_mild_iff (truthy f.min_severity) (truthy event.severity) in
    let predicates = predicates_hold_iff f.custom_predicates event.metadata in
    elim (Bool-cases (includes f.event_types event.event_type)) [
      | inl listed ↦
          elim (Bool-cases (is_too_mild (truthy f.min_severity) (truthy event.severity))) [
            | inl low ↦ ((λ h. absurd (ground arith)), (λ h. absurd (ground (arith, mild.1 h.1))))
            | inr severe ↦ (
              (λ h. (types.0 listed, mild.0 severe, predicates.0 (ground arith))),
              (λ h. rw (listed, severe) (predicates.1 h.2)),
            )
          ]
      | inr unlisted ↦ ((λ h. absurd (ground arith)), (λ h. absurd (ground (arith, types.1 h.0))))
    ]

unknown_iff :
    (ts : List String)
    → (filter (λ name. not (includes available_event_types name)) ts ≡ [])
      ↔ All (λ t. Has t available_event_types) ts
unknown_iff [] = ((λ h. tt), (λ h. refl))
unknown_iff (t ∷ ts) =
    let ih = unknown_iff ts in
    let known = includes_iff available_event_types t in
    elim (Bool-cases (includes available_event_types t)) [
      | inl h ↦ rw h ((λ e. (known.0 h, ih.0 e)), (λ k. ih.1 k.1))
      | inr h ↦ rw h ((λ e. absurd (ground arith)), (λ k. absurd (ground (arith, known.1 k.0))))
    ]

unknown_type_errors_iff : (ts : List String) → (unknown_type_errors ts ≡ []) ↔ (ts ≡ [])
unfolding unknown_type_errors
unknown_type_errors_iff [] = ((λ h. refl), (λ h. refl))
unknown_type_errors_iff (t ∷ ts) = ((λ h. absurd (ground arith)), (λ h. absurd (ground arith)))

event_type_errors_iff :
    (ts : List String)
    → (event_type_errors ts ≡ []) ↔ ((ts ≢ []) × All (λ t. Has t available_event_types) ts)
unfolding event_type_errors
event_type_errors_iff [] = ((λ h. absurd (ground arith)), (λ h. absurd (h.0 refl)))
event_type_errors_iff (t ∷ ts) =
    let unknown = filter (λ name. not (includes available_event_types name)) (t ∷ ts) in
    (
      (λ h.
          ((λ e. ground arith), (unknown_iff (t ∷ ts)).0 ((unknown_type_errors_iff unknown).0 h))),
      (λ h. (unknown_type_errors_iff unknown).1 ((unknown_iff (t ∷ ts)).1 h.1)),
    )

-- It is missing or one of the enumeration's.
abbrev pub IsSeverity : Option String → Type 0
IsSeverity none = Unit
IsSeverity (some s) = Has s severities

severity_errors_iff : (o : Option String) → (severity_errors o ≡ []) ↔ IsSeverity o
unfolding severity_errors
severity_errors_iff none = ((λ h. tt), (λ h. refl))
severity_errors_iff (some s) =
    let known = includes_iff severities s in
    elim (Bool-cases (includes severities s)) [
      | inl h ↦ rw h ((λ e. known.0 h), (λ k. refl))
      | inr h ↦ rw h ((λ e. absurd (ground arith)), (λ k. absurd (ground (arith, known.1 k))))
    ]

validation_of_iff :
    (errors : List String) (f : EventFilter)
    → (validation_of errors f ≡ valid (compile_filter_summary f)) ↔ (errors ≡ [])
unfolding validation_of
validation_of_iff [] f = ((λ h. refl), (λ h. refl))
validation_of_iff (e ∷ es) f = ((λ h. absurd (ground arith)), (λ h. absurd (ground arith)))

append-nil_iff : (xs ys : List String) → (xs ++ ys ≡ []) ↔ ((xs ≡ []) × (ys ≡ []))
append-nil_iff [] ys = ((λ h. (refl, h)), (λ h. h.1))
append-nil_iff (x ∷ xs) ys = ((λ h. absurd (ground arith)), (λ h. absurd (ground arith)))

-- A filter is found valid, and answered with its summary, exactly if it names at least one event type,
-- all that it names are available, and its least severity is missing or one of the enumeration's.
pub validate_filter_iff :
    (f : EventFilter)
    → (validate_filter f ≡ valid (compile_filter_summary f)) ↔ (
        (f.event_types ≢ [])
        × All (λ t. Has t available_event_types) f.event_types
        × IsSeverity f.min_severity)
unfolding validate_filter
validate_filter_iff f =
    let types = event_type_errors_iff f.event_types in
    let severity = severity_errors_iff f.min_severity in
    let none_of =
      append-nil_iff (event_type_errors f.event_types) (severity_errors f.min_severity) in
    let result =
      validation_of_iff (event_type_errors f.event_types ++ severity_errors f.min_severity) f in
    (
      (λ h. let e = none_of.0 (result.0 h) in let t = types.0 e.0 in (t.0, t.1, severity.0 e.1)),
      (λ h. result.1 (none_of.1 (types.1 (h.0, h.1), severity.1 h.2))),
    )

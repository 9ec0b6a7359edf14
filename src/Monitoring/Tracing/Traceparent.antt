-- ===== src/Monitoring/Tracing/Traceparent.antt =====
-- The round trip of the `traceparent` header.
use text.Mathlib.TextLemmas.{cons-append, nil-append, append_assoc}
use atraport_api.Prelude.{
  String, Bool, false, ◌||◌, some, List, [], ◌∷◌, ◌≡◌, refl, sym, ap, ◌∙◌, arith, ◌<>◌, truthy,
  is_char, split, is_space, trim_start, unless_space, trim_end, trim,
}
use atraport_api.Monitoring.Tracing.{text_length, from_parts, parse_traceparent, format_traceparent}

abbrev pub has_dash : String → Bool
has_dash String.[] = false
has_dash (String.◌∷◌ c s) = is_char c "-" || has_dash s

split-dash :
    (s rest : String) → has_dash s ≡ false → split "-" (s <> ("-" <> rest)) ≡ s ∷ split "-" rest
unfolding split
split-dash String.[] rest h = ap (split "-") (
    nil-append ("-" <> rest)
    ∙ cons-append "-" "" rest
    ∙ ap (λ s. String.◌∷◌ "-" s) (nil-append rest))
split-dash (String.◌∷◌ c s) rest h =
    let other : is_char c "-" ≡ false = ground arith in
    ap (split "-") (cons-append c s ("-" <> rest))
    ∙ rw (split-dash s rest (ground arith)) (rw other refl)

trim_end-digit : (s : String) → trim_end (s <> "1") ≡ s <> "1"
unfolding trim_end is_space
trim_end-digit String.[] = refl
trim_end-digit (String.◌∷◌ c String.[]) =
    ap trim_end (cons-append c "" "1") ∙ sym (cons-append c "" "1")
trim_end-digit (String.◌∷◌ c (String.◌∷◌ d s)) =
    ap trim_end (cons-append c (String.◌∷◌ d s) "1")
    ∙ ap (unless_space c) (trim_end-digit (String.◌∷◌ d s) ∙ cons-append d s "1")
    ∙ sym (cons-append c (String.◌∷◌ d s) "1" ∙ ap (λ r. String.◌∷◌ c r) (cons-append d s "1"))

trim_header : (s : String) → trim ("0" <> (s <> "1")) ≡ "0" <> (s <> "1")
unfolding trim trim_start is_space
trim_header s =
    ap trim_end
      (ap trim_start (cons-append "0" "" (s <> "1")) ∙ sym (cons-append "0" "" (s <> "1")))
    ∙ rw (← append_assoc) (trim_end-digit ("0" <> s))

truthy_digit : (s : String) → truthy (some ("0" <> s)) ≡ some ("0" <> s)
truthy_digit s = rw (cons-append "0" "" s) refl

-- The header, as what its ends show, and as its four parts.
header_ends :
    (trace_id span_id : String)
    → format_traceparent trace_id span_id
      ≡ "0" <> (("0-" <> (trace_id <> ("-" <> (span_id <> "-0")))) <> "1")
unfolding format_traceparent
header_ends trace_id span_id =
    append_assoc "0" "0-" (trace_id <> ("-" <> (span_id <> "-01")))
    ∙ ap (λ r. "0" <> r)
        (ap (λ r. "0-" <> (trace_id <> ("-" <> r))) (sym (append_assoc span_id "-0" "1"))
          ∙ ap (λ r. "0-" <> (trace_id <> r)) (sym (append_assoc "-" (span_id <> "-0") "1"))
          ∙ ap (λ r. "0-" <> r) (sym (append_assoc trace_id ("-" <> (span_id <> "-0")) "1"))
          ∙ sym (append_assoc "0-" (trace_id <> ("-" <> (span_id <> "-0"))) "1"))

header_parts :
    (trace_id span_id : String)
    → has_dash trace_id ≡ false
    → has_dash span_id ≡ false
    → split "-" (format_traceparent trace_id span_id) ≡ "00" ∷ (trace_id ∷ (span_id ∷ ("01" ∷ [])))
unfolding format_traceparent split
header_parts trace_id span_id t s =
    let tail = span_id <> "-01" in
    ap (split "-") (append_assoc "00" "-" (trace_id <> ("-" <> tail)))
    ∙ split-dash "00" (trace_id <> ("-" <> tail)) refl
    ∙ ap (λ (r : List String). "00" ∷ r) (split-dash trace_id tail t)
    ∙ ap (λ (r : List String). "00" ∷ (trace_id ∷ r)) (split-dash span_id "01" s)

-- A header that `formatTraceparent` writes for identifiers of 32 and 16 characters without a dash is read
-- back as these identifiers.
pub parse-format_traceparent :
    (trace_id span_id : String)
    → has_dash trace_id ≡ false
    → has_dash span_id ≡ false
    → text_length trace_id ≡ 32
    → text_length span_id ≡ 16
    → parse_traceparent (some (format_traceparent trace_id span_id)) ≡ some (trace_id, span_id)
unfolding parse_traceparent from_parts
parse-format_traceparent trace_id span_id t s long short =
    let ends = header_ends trace_id span_id in
    let inner = "0-" <> (trace_id <> ("-" <> (span_id <> "-0"))) in
    let shown : truthy (some (format_traceparent trace_id span_id))
        ≡ some (format_traceparent trace_id span_id) =
      rw ends (truthy_digit (inner <> "1")) in
    let trimmed : trim (format_traceparent trace_id span_id) ≡ format_traceparent trace_id span_id =
      rw ends (trim_header inner) in
    rw shown (rw trimmed (rw (header_parts trace_id span_id t s) (rw (long, short) refl)))

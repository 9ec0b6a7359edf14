-- ===== src/Environment.antt =====
-- What the configuration loaders of src/cache/cache.config.ts and src/rate-limit/rate-limit.config.ts read: an
-- environment variable, as the answer of `process.env`, and the JSON value of one.
use atraport_api.Prelude.{
  ℕ, String, Bool, not, Option, none, some, [], ◌∷◌, ltb, any, trim, to_lower_case, if◌then◌else◌,
  ◌≤◌, arith, Bool-cases, inl, inr,
}
use atraport_api.Prelude.Json.{Value, str}
use text.Mathlib.Text.{◌==◌}

-- The conversions of the language.
pub record Conversions : Type 0 where
  -- `Number(v)`, where that is an integer that is not negative.
  pub to_number : Value → Option ℕ
  -- `String(v)`
  pub to_text : Value → String
  -- `JSON.parse(text)`; `none` where it throws.
  pub parse : String → Option Value

abbrev pub positive_or : ℕ → Option ℕ → ℕ
positive_or fallback none = fallback
positive_or fallback (some n) = if ltb 0 n then n else fallback

unfoldable pub positive_integer : Conversions → Option String → ℕ → ℕ
positive_integer c none fallback = fallback
positive_integer c (some value) fallback =
    if trim value == "" then fallback else positive_or fallback (c.to_number (str value))

unfoldable pub boolean_value : Option String → Bool → Bool
boolean_value none fallback = fallback
boolean_value (some value) fallback =
    not (any (λ s. s == to_lower_case (trim value)) ("false" ∷ "0" ∷ "no" ∷ "off" ∷ []))

positive_or-le : (fallback : ℕ) (n : Option ℕ) → 1 ≤ fallback → 1 ≤ positive_or fallback n
positive_or-le fallback none h = h
positive_or-le fallback (some n) h = ground arith

-- The number is positive if the fallback is.
pub positive_integer-le :
    (c : Conversions) (value : Option String) (fallback : ℕ)
    → 1 ≤ fallback
    → 1 ≤ positive_integer c value fallback
unfolding positive_integer
positive_integer-le c none fallback h = h
positive_integer-le c (some value) fallback h = elim (Bool-cases (trim value == "")) [
  | inl blank ↦ rw blank h
  | inr given ↦ rw given (positive_or-le fallback (c.to_number (str value)) h)
]

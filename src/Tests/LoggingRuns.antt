-- ===== src/Tests/LoggingRuns.antt =====
-- src/logging: runs of the redaction.
use atraport_api.Prelude.{ℕ, zero, suc, some, List, [], ◌∷◌, ◌++◌, ◌≡◌, refl, arith, to_lower_case}
use atraport_api.Prelude.Json.{Value, object, array, str, num, no_items, item, no_entries, entry}
use atraport_api.Logging.Redact.{
  default_sensitive_keys, redacted, is_sensitive, redact_sensitive_data,
}
use atraport_api.Logging.Redact.Paths.{
  Step, IsClean, index, key, at, sensitive_hidden, deep_exposed,
}

abbrev request : Value
request = object (
    entry "user"
      (array (item (object (entry "Password" (str "x") (entry "n" (num 1) no_entries))) no_items))
      no_entries)

sensitive_hidden_example :
    at (key "user" ∷ (index 0 ∷ (key "Password" ∷ []))) (redact_sensitive_data request)
    ≡ some redacted
unfolding at is_sensitive to_lower_case
sensitive_hidden_example =
    sensitive_hidden (key "user" ∷ (index 0 ∷ [])) "Password" request (refl, (refl, tt))
      (omega arith) refl

abbrev steps : ℕ → List Step
steps zero = []
steps (suc n) = key "a" ∷ steps n

abbrev nested : ℕ → Value → Value
nested zero v = v
nested (suc n) v = object (entry "a" (nested n v) no_entries)

abbrev secret : Value
secret = object (entry "password" (str "x") no_entries)

steps-IsClean : (n : ℕ) → IsClean default_sensitive_keys (steps n)
unfolding is_sensitive to_lower_case
steps-IsClean zero = tt
steps-IsClean (suc n) = (refl, steps-IsClean n)

deep_exposed_example :
    at (steps 11 ++ (key "password" ∷ [])) (redact_sensitive_data (nested 11 secret))
    ≡ some (str "x")
unfolding at is_sensitive to_lower_case
deep_exposed_example =
    deep_exposed (steps 11) (key "password" ∷ []) (nested 11 secret) (steps-IsClean 11) refl

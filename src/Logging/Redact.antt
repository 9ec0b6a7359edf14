-- ===== src/Logging/Redact.antt =====
-- src/logging/utils/redact.util.ts: `redactSensitiveData`.
pub mod Paths
use atraport_api.Prelude.{
  ℕ, ◌+◌, String, Bool, true, false, List, [], ◌∷◌, ltb, any, to_lower_case, if◌then◌else◌,
}
use atraport_api.Prelude.Json.{
  Value, null, undefined, bool, num, str, array, object, Items, no_items, item, Fields, no_entries,
  entry,
}
use text.Mathlib.Text.{◌==◌}

abbrev pub default_sensitive_keys : List String
default_sensitive_keys =
    "password" ∷ "passwd" ∷ "secret" ∷ "token" ∷ "accesstoken" ∷ "refreshtoken" ∷ "authorization"
    ∷ "apikey" ∷ "api_key" ∷ "privatekey" ∷ "private_key" ∷ "secretkey" ∷ "secret_key"
    ∷ "creditcard" ∷ "credit_card" ∷ "cardnumber" ∷ "card_number" ∷ "cvv" ∷ "ssn"
    ∷ "socialsecuritynumber" ∷ "passphrase" ∷ "mnemonic" ∷ "seed" ∷ []

abbrev pub redacted : Value
redacted = str "[REDACTED]"

-- `sensitiveKeys.has(k.toLowerCase())`
unfoldable pub is_sensitive : List String → String → Bool
is_sensitive keys k = any (λ s. s == to_lower_case k) keys

-- The list of keys, and the depth of the value.
unfoldable mutual
  pub redact : List String → ℕ → Value → Value
  redact keys depth null = null
  redact keys depth undefined = undefined
  redact keys depth (bool b) = bool b
  redact keys depth (num n) = num n
  redact keys depth (str s) = str s
  redact keys depth (array xs) =
      let inner = redact_items keys (depth + 1) xs in if ltb 10 depth then array xs else array inner
  redact keys depth (object fs) =
      let inner = redact_fields keys (depth + 1) fs in
      if ltb 10 depth then object fs else object inner

  pub redact_items : List String → ℕ → Items → Items
  redact_items keys depth no_items = no_items
  redact_items keys depth (item v vs) = item (redact keys depth v) (redact_items keys depth vs)

  pub redact_fields : List String → ℕ → Fields → Fields
  redact_fields keys depth no_entries = no_entries
  redact_fields keys depth (entry k v fs) =
      let shown = redact keys depth v in
      entry k (if is_sensitive keys k then redacted else shown) (redact_fields keys depth fs)

unfoldable pub redact_sensitive_data : Value → Value
redact_sensitive_data v = redact default_sensitive_keys 0 v

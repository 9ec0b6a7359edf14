-- ===== src/Audit.antt =====
-- src/audit-log: the entries, integrity/log-integrity.verifier.ts and the service's check of a user's
-- entries. SHA-256 and the text of an entry's details (`JSON.stringify`) are parameters. A time is in
-- milliseconds from 1970, before the year 10000.
pub mod Tampering
use atraport_api.Prelude.{
  ℕ, zero, suc, ◌+◌, ◌-◌, ◌*◌, ◌/◌, ◌%◌, nat_eq, String, Bool, true, false, Option, none, some,
  List, [], ◌∷◌, ltb, leb, ◌<>◌, truthy, filter, if◌then◌else◌,
}
use text.Mathlib.Text.{◌==◌}

pub record AuditLog (D : Type 0) : Type 0 where
  pub id : String
  pub user_id : String
  pub event_type : String
  pub portfolio_id : Option String
  pub user_action : String
  pub details : D
  pub ip_address : String
  pub user_agent : String
  pub checksum : String
  pub previous_checksum : Option String
  pub created_at : ℕ

pub record Hashing (D : Type 0) : Type 0 where
  pub sha256 : String → String
  pub stringify : D → String

char_at : ℕ → String → String
char_at n String.[] = ""
char_at zero (String.◌∷◌ c s) = String.◌∷◌ c ""
char_at (suc n) (String.◌∷◌ c s) = char_at n s

-- The last digits of a number, as many as asked for.
digits : ℕ → ℕ → String
unfolding char_at
digits zero n = ""
digits (suc count) n = digits count (n / 10) <> char_at (n % 10) "0123456789"

-- The date of a day counted from 1970: years run from March, in eras of 400 years.
date_text : ℕ → String
unfolding digits
date_text days =
    let z = days + 719468 in
    let day_of_era = z % 146097 in
    let year_of_era =
      (day_of_era + day_of_era / 36524 - (day_of_era / 1460 + day_of_era / 146096)) / 365 in
    let day_of_year = day_of_era + year_of_era / 100 - (365 * year_of_era + year_of_era / 4) in
    let from_march = (5 * day_of_year + 2) / 153 in
    let day = day_of_year - (153 * from_march + 2) / 5 + 1 in
    let month = if ltb from_march 10 then from_march + 3 else from_march - 9 in
    let year = year_of_era + z / 146097 * 400 + (if leb month 2 then 1 else 0) in
    digits 4 year <> "-" <> digits 2 month <> "-" <> digits 2 day

-- `date.toISOString()`
unfoldable pub to_iso_string : ℕ → String
unfolding digits date_text
to_iso_string t =
    date_text (t / 86400000)
    <> "T"
    <> digits 2 (t / 3600000 % 24)
    <> ":"
    <> digits 2 (t / 60000 % 60)
    <> ":"
    <> digits 2 (t / 1000 % 60)
    <> "."
    <> digits 3 (t % 1000)
    <> "Z"

abbrev or_empty : Option String → String
or_empty none = ""
or_empty (some s) = s

pub record Integrity : Type 0 where
  pub valid : Bool
  pub invalid_log_ids : List String

abbrev is_empty {ℓ} : {A : Type ℓ} → List A → Bool
is_empty [] = true
is_empty (x ∷ xs) = false

module _ {D : Type 0} where
  unfoldable pub checksum_data : Hashing D → AuditLog D → String → String
  checksum_data hashing log previous =
      log.id
      <> log.user_id
      <> log.event_type
      <> or_empty (truthy log.portfolio_id)
      <> log.user_action
      <> hashing.stringify log.details
      <> to_iso_string log.created_at
      <> previous

  unfoldable pub generate_checksum : Hashing D → AuditLog D → String → String
  generate_checksum hashing log previous = hashing.sha256 (checksum_data hashing log previous)

  -- `logs.sort((a, b) => a.createdAt.getTime() - b.createdAt.getTime())`, which is stable.
  unfoldable pub insert_by_time : AuditLog D → List (AuditLog D) → List (AuditLog D)
  insert_by_time log [] = log ∷ []
  insert_by_time log (first ∷ rest) =
      let later = insert_by_time log rest in
      if leb log.created_at first.created_at then log ∷ (first ∷ rest) else first ∷ later

  unfoldable pub sort_by_time : List (AuditLog D) → List (AuditLog D)
  sort_by_time [] = []
  sort_by_time (log ∷ logs) = insert_by_time log (sort_by_time logs)

  unfoldable pub verify_loop : Hashing D → String → List (AuditLog D) → List String
  verify_loop hashing previous [] = []
  verify_loop hashing previous (log ∷ rest) =
      let later = verify_loop hashing log.checksum rest in
      if log.checksum == generate_checksum hashing log previous then later else log.id ∷ later

  unfoldable pub verify_logs : Hashing D → List (AuditLog D) → Integrity
  verify_logs hashing logs =
      let invalid = verify_loop hashing "" (sort_by_time logs) in
      record { valid = is_empty invalid; invalid_log_ids = invalid }

  -- The rows are those of the table.
  unfoldable pub verify_integrity : Hashing D → String → List (AuditLog D) → Integrity
  verify_integrity hashing user_id rows =
      verify_logs hashing (filter (λ (log : AuditLog D). log.user_id == user_id) rows)

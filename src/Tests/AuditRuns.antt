-- ===== src/Tests/AuditRuns.antt =====
-- src/audit-log: a run of the check of the checksums, and times as text.
use atraport_api.Prelude.{
  ℕ, some, ◌<>◌, ap, sym, ◌∙◌, String, false, none, [], ◌∷◌, ◌≡◌, ◌≢◌, refl, arith,
}
use Prim.Native.Char.{code}
use text.Mathlib.TextLemmas.{append_cancel_left, cons-append}
use atraport_api.Audit.{
  verify_loop, sort_by_time, insert_by_time, AuditLog, Hashing, to_iso_string, checksum_data,
  generate_checksum, verify_logs,
}
use atraport_api.Audit.Tampering.{altered_reported}

iso_at_zero : to_iso_string 0 ≡ "1970-01-01T00:00:00.000Z"
unfolding to_iso_string
iso_at_zero = refl

iso_on_leap_day : to_iso_string 1709164799999 ≡ "2024-02-28T23:59:59.999Z"
unfolding to_iso_string
iso_on_leap_day = refl

iso_after_leap_day : to_iso_string 1709251200000 ≡ "2024-03-01T00:00:00.000Z"
unfolding to_iso_string
iso_after_leap_day = refl

-- The data itself, which tells everything apart.
abbrev hashing : Hashing String
hashing = record { sha256 = λ s. s; stringify = λ s. s }

abbrev entry : String → String → String → ℕ → AuditLog String
entry id details checksum time = record {
  id = id;
  user_id = "u";
  event_type = "TRADE";
  portfolio_id = some "p";
  user_action = "BUY";
  details = details;
  ip_address = "10.0.0.1";
  user_agent = "cli";
  checksum = checksum;
  previous_checksum = none;
  created_at = time;
}

abbrev first_code : String → ℕ
first_code String.[] = 0
first_code (String.◌∷◌ c s) = code c

-- The checksums of the entry with the details "5", which comes first, and of the entry after it.
abbrev first_sum : String
first_sum = "auTRADEpBUY51970-01-01T00:00:00.020Z"

abbrev second_sum : String
second_sum = "buTRADEpBUY71970-01-01T00:00:00.060ZauTRADEpBUY51970-01-01T00:00:00.020Z"

told_apart :
    (p : String)
    → generate_checksum hashing (entry "a" "9" first_sum 20) p
      ≢ generate_checksum hashing (entry "a" "5" first_sum 20) p
unfolding generate_checksum checksum_data
told_apart p h =
    let nine = "9" <> to_iso_string 20 <> p in
    let five = "5" <> to_iso_string 20 <> p in
    let from_action = cut "p" (cut "TRADE" (cut "u" (cut "a" h))) in
    let from_details : nine ≡ five = cut "BUY" from_action in
    absurd (
      omega (
        arith,
        ap first_code (
            sym (cons-append "9" "" (to_iso_string 20 <> p))
            ∙ from_details
            ∙ cons-append "5" "" (to_iso_string 20 <> p)),
      ))
  where
    cut : (s : String) {t u : String} → s <> t ≡ s <> u → t ≡ u
    cut s {t} {u} = append_cancel_left s t u

altered_reported_example :
    let altered = entry "b" "7" second_sum 60 ∷ entry "a" "9" first_sum 20 ∷ [] in
    ((verify_logs hashing altered).valid ≡ false)
    × ((verify_logs hashing altered).invalid_log_ids ≡ "a" ∷ [])
unfolding verify_logs verify_loop sort_by_time insert_by_time generate_checksum checksum_data
    to_iso_string
altered_reported_example =
    altered_reported hashing (entry "a" "5" first_sum 20) (entry "a" "9" first_sum 20)
      (entry "b" "7" second_sum 60 ∷ []) [] refl refl told_apart refl

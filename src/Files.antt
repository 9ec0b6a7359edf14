-- ===== src/Files.antt =====
-- src/files/services: the rows of the tables, the services that an upload passes, the validator and the
-- quota. The storage provider (storage/storage.interface.ts), ClamAV, sharp and `path.extname` are
-- parameters; where they throw, they answer `none`. The tables are maps from their keys; a saved row is
-- stamped with the time of the call.
pub mod Service
pub mod Garbage
pub mod Quota
pub mod Access
use atraport_api.Prelude.{
  ℕ, ◌+◌, ◌*◌, String, Bool, true, false, not, ◌&&◌, ◌||◌, Option, none, some, List, [], ◌∷◌, ltb,
  any, ◌<>◌, truthy, if◌then◌else◌,
}
use text.Mathlib.Text.{◌==◌, starts_with}
use atraport_api.Prelude.JsMap
use atraport_api.Prelude.JsMap.{JsMap}

pub record FileRecord : Type 0 where
  pub id : String
  pub user_id : String
  pub original_name : String
  pub mime_type : String
  pub size : ℕ
  pub storage_provider : String
  pub storage_path : String
  pub cdn_url : Option String
  pub is_compressed : Bool
  pub is_scanned : Bool
  pub is_infected : Bool
  pub is_deleted : Bool
  pub created_at : ℕ
  pub updated_at : ℕ

pub record StorageQuota : Type 0 where
  pub user_id : String
  pub used_bytes : ℕ
  pub max_bytes : ℕ

-- `B` is a buffer and `S` the storage's state. `scan_buffer` is ClamAV's answer, the viruses that it
-- found, and is missing where the scanner could not be started.
pub record Services (B S : Type 0) : Type 0 where
  pub buffer_length : B → ℕ
  pub extname : String → String
  pub upload : String → B → String → S → Option S
  pub initialize_multipart_upload : String → String → S → Option (String × S)
  pub upload_chunk : String → ℕ → B → S → Option S
  pub complete_multipart_upload : String → String → List String → S → Option S
  pub download : String → S → Option B
  pub remove : String → S → Option S
  pub get_signed_url : String → ℕ → S → Option String
  pub scan_buffer : Option (B → Option (Bool × List String))
  pub sharp : String → B → Option B
  pub provider_name : Option String
  pub cdn_base : Option String

pub data FileError : Type 0 where
  unsupported_type too_large quota_exceeded chunk_too_large not_found forbidden storage_failed :
      FileError
  virus_detected : List String → FileError

pub data Answer {ℓ} (A : Type ℓ) : Type ℓ where
  fails : FileError → Answer A
  gives : A → Answer A

pub record FileStore (S : Type 0) : Type 0 where
  pub records : JsMap FileRecord
  pub quotas : JsMap StorageQuota
  pub storage : S

abbrev pub allowed_mime_types : List String
allowed_mime_types =
    "image/jpeg" ∷ "image/png" ∷ "image/webp" ∷ "image/gif" ∷ "application/pdf" ∷ "text/plain"
    ∷ "application/msword"
    ∷ "application/vnd.openxmlformats-officedocument.wordprocessingml.document"
    ∷ "application/vnd.ms-excel"
    ∷ "application/vnd.openxmlformats-officedocument.spreadsheetml.sheet" ∷ []

abbrev pub max_size_bytes : ℕ
max_size_bytes = 104857600

abbrev pub max_chunk_size : ℕ
max_chunk_size = 10485760

abbrev pub default_max_bytes : ℕ
default_max_bytes = 5368709120

-- The error that it throws, if it does.
unfoldable pub validate_file : String → ℕ → Option FileError
validate_file mime_type size =
    if not (any (λ t. t == mime_type) allowed_mime_types)
    then some unsupported_type
    else if ltb max_size_bytes size
    then some too_large
    else none

abbrev new_quota : String → StorageQuota
new_quota user_id = record { user_id = user_id; used_bytes = 0; max_bytes = default_max_bytes }

unfoldable pub find_or_create :
    String → Option StorageQuota → JsMap StorageQuota → StorageQuota × JsMap StorageQuota
find_or_create user_id (some quota) quotas = (quota, quotas)
find_or_create user_id none quotas =
    (new_quota user_id, JsMap.set user_id (new_quota user_id) quotas)

-- Whether the quota allows the bytes; a user without one gets one.
unfoldable pub check_storage_quota : String → ℕ → JsMap StorageQuota → Bool × JsMap StorageQuota
check_storage_quota user_id additional quotas =
    let (quota, quotas') = find_or_create user_id (JsMap.get user_id quotas) quotas in
    (not (ltb quota.max_bytes (quota.used_bytes + additional)), quotas')

unfoldable pub add_bytes : ℕ → Option StorageQuota → JsMap StorageQuota → JsMap StorageQuota
add_bytes bytes none quotas = quotas
add_bytes bytes (some q) quotas =
    JsMap.set q.user_id (record q { used_bytes = q.used_bytes + bytes }) quotas

unfoldable pub update_storage_quota : String → ℕ → JsMap StorageQuota → JsMap StorageQuota
update_storage_quota user_id bytes quotas = add_bytes bytes (JsMap.get user_id quotas) quotas

unfoldable pub generate_cdn_url : Option String → String → Option String
generate_cdn_url base path = elim (truthy base) [ none ↦ none | some b ↦ some (b <> "/" <> path) ]

-- ===== src/Files/Service.antt =====
-- src/files/services/files.service.ts with the virus scanner and the image optimizer. The identifiers of a
-- file and of its row are arguments.
use atraport_api.Prelude.{
  ℕ, String, Bool, true, false, not, ◌||◌, Option, none, some, List, [], ltb, ◌<>◌, truthy,
  if◌then◌else◌,
}
use text.Mathlib.Text.{◌==◌, starts_with}
use atraport_api.Prelude.JsMap
use atraport_api.Prelude.JsMap.{JsMap}
use atraport_api.Files.{
  FileError, FileRecord, Services, Answer, FileStore, max_chunk_size, validate_file,
  check_storage_quota, update_storage_quota, generate_cdn_url, quota_exceeded, chunk_too_large,
  not_found, forbidden, storage_failed, virus_detected, fails, gives,
}

module _ {B S : Type 0} (services : Services B S) where
  abbrev scan_answer : Option (Bool × List String) → Bool × List String
  scan_answer none = (false, [])
  scan_answer (some found) = found

  -- Without a scanner, and where it throws, a buffer passes.
  unfoldable pub scan_buffer : Option (B → Option (Bool × List String)) → B → Bool × List String
  scan_buffer none buffer = (false, [])
  scan_buffer (some scan) buffer = scan_answer (scan buffer)

  unfoldable pub smaller : B → Option B → B × Bool
  smaller buffer none = (buffer, false)
  smaller buffer (some optimized) =
      if ltb (services.buffer_length optimized) (services.buffer_length buffer)
      then (optimized, true)
      else (buffer, false)

  -- The buffer, and whether it is the compressed one.
  unfoldable pub optimize_image : B → String → B × Bool
  optimize_image buffer mime_type =
      if not (starts_with mime_type "image/") || mime_type == "image/svg+xml"
      then (buffer, false)
      else smaller buffer (services.sharp mime_type buffer)

  abbrev pub provider_or_local : Option String → String
  provider_or_local none = "local"
  provider_or_local (some name) = name

  unfoldable pub new_path : String → String → String → String
  new_path user_id file_id original_name =
      "users/" <> user_id <> "/" <> file_id <> services.extname original_name

  unfoldable pub new_record :
      String → String → String → String → ℕ → String → Bool → Bool → ℕ → FileRecord
  new_record id user_id original_name mime_type size path compressed scanned now = record {
    id = id;
    user_id = user_id;
    original_name = original_name;
    mime_type = mime_type;
    size = size;
    storage_provider = provider_or_local (truthy services.provider_name);
    storage_path = path;
    cdn_url = generate_cdn_url services.cdn_base path;
    is_compressed = compressed;
    is_scanned = scanned;
    is_infected = false;
    is_deleted = false;
    created_at = now;
    updated_at = now;
  }

  -- The row is saved and its bytes are counted.
  unfoldable pub save_record : FileRecord → FileStore S → Answer FileRecord × FileStore S
  save_record r s = (
    gives r,
    record s {
      records = JsMap.set r.id r s.records;
      quotas = update_storage_quota r.user_id r.size s.quotas;
    },
  )

  abbrev pub save_stored : FileRecord → Option S → FileStore S → Answer FileRecord × FileStore S
  save_stored r none s = (fails storage_failed, s)
  save_stored r (some storage) s = save_record r (record s { storage = storage })

  unfoldable pub store_scanned :
      String
      → String
      → String
      → B
      → String
      → String
      → ℕ
      → FileStore S
      → Answer FileRecord × FileStore S
  store_scanned user_id original_name mime_type buffer file_id row_id now s =
      let (processed, compressed) = optimize_image buffer mime_type in
      let path = new_path user_id file_id original_name in
      save_stored
        (new_record row_id user_id original_name mime_type (services.buffer_length processed) path
          compressed true now)
        (services.upload path processed mime_type s.storage) s

  -- The validator's error comes first, then the quota's.
  abbrev pub guarded {ℓ} :
      {A : Type ℓ}
      → Option FileError
      → Bool
      → FileStore S
      → FileStore S
      → Answer A × FileStore S
      → Answer A × FileStore S
  guarded (some error) allowed s s' next = (fails error, s)
  guarded none allowed s s' next = if not allowed then (fails quota_exceeded, s') else next

  -- The file's and the row's identifiers are arguments.
  unfoldable pub upload_file :
      String
      → String
      → String
      → B
      → String
      → String
      → ℕ
      → FileStore S
      → Answer FileRecord × FileStore S
  upload_file user_id original_name mime_type buffer file_id row_id now s =
      let size = services.buffer_length buffer in
      let (allowed, quotas) = check_storage_quota user_id size s.quotas in
      let s' = record s { quotas = quotas } in
      let (infected, viruses) = scan_buffer services.scan_buffer buffer in
      guarded (validate_file mime_type size) allowed s s' (
        if infected
        then (fails (virus_detected viruses), s')
        else store_scanned user_id original_name mime_type buffer file_id row_id now s')

  abbrev pub initialized :
      Option (String × S) → String → FileStore S → Answer (String × String) × FileStore S
  initialized none path s = (fails storage_failed, s)
  initialized (some (upload_id, storage)) path s =
      (gives (upload_id, path), record s { storage = storage })

  unfoldable pub initialize_chunked_upload :
      String → String → String → ℕ → String → FileStore S → Answer (String × String) × FileStore S
  initialize_chunked_upload user_id original_name mime_type total_size file_id s =
      let (allowed, quotas) = check_storage_quota user_id total_size s.quotas in
      let s' = record s { quotas = quotas } in
      let path = new_path user_id file_id original_name in
      guarded (validate_file mime_type total_size) allowed s s'
        (initialized (services.initialize_multipart_upload path mime_type s'.storage) path s')

  abbrev pub chunk_stored : Option S → FileStore S → Answer (Unit {0}) × FileStore S
  chunk_stored none s = (fails storage_failed, s)
  chunk_stored (some storage) s = (gives tt, record s { storage = storage })

  unfoldable pub upload_chunk : String → ℕ → B → FileStore S → Answer (Unit {0}) × FileStore S
  upload_chunk upload_id part_number buffer s =
      if ltb max_chunk_size (services.buffer_length buffer)
      then (fails chunk_too_large, s)
      else chunk_stored (services.upload_chunk upload_id part_number buffer s.storage) s

  unfoldable pub complete_chunked_upload :
      String
      → String
      → String
      → String
      → String
      → ℕ
      → List String
      → String
      → ℕ
      → FileStore S
      → Answer FileRecord × FileStore S
  complete_chunked_upload user_id upload_id path original_name mime_type total_size parts row_id now
        s =
      save_stored
        (new_record row_id user_id original_name mime_type total_size path false false now)
        (services.complete_multipart_upload upload_id path parts s.storage) s

  -- A deleted row is not found.
  unfoldable pub live : Option FileRecord → Option FileRecord
  live none = none
  live (some r) = if r.is_deleted then none else some r

  unfoldable pub owned : String → Option FileRecord → Answer FileRecord
  owned user_id none = fails not_found
  owned user_id (some r) = if r.user_id == user_id then gives r else fails forbidden

  abbrev pub or_failed {ℓ} : {A : Type ℓ} → Option A → Answer A
  or_failed none = fails storage_failed
  or_failed (some a) = gives a

  abbrev pub and_then {ℓ κ} : {A : Type ℓ} {C : Type κ} → Answer A → (A → Answer C) → Answer C
  and_then (fails e) f = fails e
  and_then (gives a) f = f a

  unfoldable pub get_file : String → String → FileStore S → Answer (B × String)
  get_file user_id file_id s =
      and_then (owned user_id (live (JsMap.get file_id s.records))) (λ (r : FileRecord).
        and_then (or_failed (services.download r.storage_path s.storage))
          (λ (buffer : B). gives (buffer, r.mime_type)))

  unfoldable pub get_signed_url : String → String → FileStore S → Answer String
  get_signed_url user_id file_id s =
      and_then (owned user_id (live (JsMap.get file_id s.records)))
        (λ (r : FileRecord). or_failed (services.get_signed_url r.storage_path 3600 s.storage))

  abbrev pub deleted : ℕ → Answer FileRecord → FileStore S → Answer (Unit {0}) × FileStore S
  deleted now (fails e) s = (fails e, s)
  deleted now (gives r) s = (
    gives tt,
    record s {
      records = JsMap.set r.id (record r { is_deleted = true; updated_at = now }) s.records;
    },
  )

  unfoldable pub delete_file : String → String → ℕ → FileStore S → Answer (Unit {0}) × FileStore S
  delete_file user_id file_id now s = deleted now (owned user_id (JsMap.get file_id s.records)) s

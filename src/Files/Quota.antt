-- ===== src/Files/Quota.antt =====
-- What the quotas of src/files hold back, and what passes them.
use atraport_api.Prelude.{
  ℕ, ◌+◌, ◌≤◌, String, true, Option, none, some, List, [], ◌∷◌, ◌≡◌, refl, arith, Bool-cases,
  Option-cases, inl, inr, eq_refl,
}
use atraport_api.Prelude.JsMap
use atraport_api.Prelude.JsMap.{JsMap, Every, set-Every, Every-get, get-set}
use atraport_api.Files.{
  StorageQuota, Services, FileStore, FileRecord, validate_file, find_or_create, check_storage_quota,
  add_bytes, update_storage_quota,
}
use atraport_api.Files.Service.{
  scan_buffer, optimize_image, smaller, save_record, save_stored, store_scanned, upload_file,
  initialize_chunked_upload, upload_chunk, complete_chunked_upload, delete_file, new_record,
  new_path,
}

abbrev pub IsWithin : StorageQuota → Type 0
IsWithin q = q.used_bytes ≤ q.max_bytes

abbrev pub AllWithin : JsMap StorageQuota → Type 0
AllWithin quotas = Every IsWithin quotas

-- There is room for the bytes in the user's quota.
abbrev HasRoom : String → ℕ → JsMap StorageQuota → Type 0
HasRoom user_id bytes quotas =
    (q : StorageQuota) × (JsMap.get user_id quotas ≡ some q) × (q.used_bytes + bytes ≤ q.max_bytes)

found_room :
    (user_id : String) (bytes : ℕ) (o : Option StorageQuota) (quotas : JsMap StorageQuota)
    → JsMap.get user_id quotas ≡ o
    → AllWithin quotas
    → let (quota, quotas') = find_or_create user_id o quotas in
      AllWithin quotas' × (JsMap.get user_id quotas' ≡ some quota)
unfolding find_or_create
found_room user_id bytes (some q) quotas e h = (h, e)
found_room user_id bytes none quotas e h = (
  set-Every IsWithin user_id (record { user_id = user_id; used_bytes = 0; max_bytes = 5368709120 })
      quotas (omega arith) h,
  rw (get-set, eq_refl user_id) refl,
)

checked :
    (user_id : String) (bytes : ℕ) (quotas : JsMap StorageQuota)
    → AllWithin quotas
    → AllWithin (check_storage_quota user_id bytes quotas).1
unfolding check_storage_quota
checked user_id bytes quotas h =
    (found_room user_id bytes (JsMap.get user_id quotas) quotas refl h).0

has_room :
    (user_id : String) (bytes : ℕ) (quotas : JsMap StorageQuota)
    → AllWithin quotas
    → (check_storage_quota user_id bytes quotas).0 ≡ true
    → HasRoom user_id bytes (check_storage_quota user_id bytes quotas).1
unfolding check_storage_quota
has_room user_id bytes quotas h allowed =
    let found = found_room user_id bytes (JsMap.get user_id quotas) quotas refl h in
    ((find_or_create user_id (JsMap.get user_id quotas) quotas).0, found.1, ground arith)

update-AllWithin :
    (user_id : String) (bytes room : ℕ) (quotas : JsMap StorageQuota)
    → bytes ≤ room
    → HasRoom user_id room quotas
    → AllWithin quotas
    → AllWithin (update_storage_quota user_id bytes quotas)
unfolding update_storage_quota add_bytes
update-AllWithin user_id bytes room quotas less (q, here, fits) h = rw here (
    set-Every IsWithin q.user_id (record q { used_bytes = q.used_bytes + bytes }) quotas
      (omega arith) h)

module _ {B S : Type 0} (services : Services B S) where
  smaller-le :
      (buffer : B) (o : Option B)
      → services.buffer_length (smaller services buffer o).0 ≤ services.buffer_length buffer
  unfolding smaller
  smaller-le buffer none = omega arith
  smaller-le buffer (some optimized) = ground arith

  optimize_image-le :
      (buffer : B) (mime_type : String)
      → services.buffer_length (optimize_image services buffer mime_type).0
        ≤ services.buffer_length buffer
  unfolding optimize_image
  optimize_image-le buffer mime_type =
      ground (arith, smaller-le buffer (services.sharp mime_type buffer))

  save_stored-AllWithin :
      (r : FileRecord) (room : ℕ) (o : Option S) (s : FileStore S)
      → r.size ≤ room
      → HasRoom r.user_id room s.quotas
      → AllWithin s.quotas
      → AllWithin (save_stored services r o s).1.quotas
  unfolding save_record
  save_stored-AllWithin r room none s less fits h = h
  save_stored-AllWithin r room (some storage) s less fits h =
      update-AllWithin r.user_id r.size room s.quotas less fits h

  store_scanned-AllWithin :
      (user_id original_name mime_type : String) (buffer : B) (file_id row_id : String) (now : ℕ)
      (s : FileStore S)
      → HasRoom user_id (services.buffer_length buffer) s.quotas
      → AllWithin s.quotas
      → AllWithin
          (store_scanned services user_id original_name mime_type buffer file_id row_id now
            s).1.quotas
  unfolding store_scanned new_record
  store_scanned-AllWithin user_id original_name mime_type buffer file_id row_id now s fits h =
      let (processed, compressed) = optimize_image services buffer mime_type in
      let path = new_path services user_id file_id original_name in
      save_stored-AllWithin
        (new_record services row_id user_id original_name mime_type
          (services.buffer_length processed) path compressed true now)
        (services.buffer_length buffer) (services.upload path processed mime_type s.storage) s
        (optimize_image-le buffer mime_type) fits h

  -- `uploadFile` leaves every user within their quota: the optimizer only makes a buffer smaller.
  upload-AllWithin :
      (user_id original_name mime_type : String) (buffer : B) (file_id row_id : String) (now : ℕ)
      (s : FileStore S)
      → AllWithin s.quotas
      → AllWithin
          (upload_file services user_id original_name mime_type buffer file_id row_id now
            s).1.quotas
  unfolding upload_file
  upload-AllWithin user_id original_name mime_type buffer file_id row_id now s h =
      let size = services.buffer_length buffer in
      let quotas = (check_storage_quota user_id size s.quotas).1 in
      let kept = checked user_id size s.quotas h in
      elim (Option-cases (validate_file mime_type size)) [
        | inr (error, bad) ↦ rw bad h
        | inl valid ↦ elim (Bool-cases (check_storage_quota user_id size s.quotas).0) [
          | inr full ↦ rw (valid, full) kept
          | inl allowed ↦ elim (Bool-cases (scan_buffer services services.scan_buffer buffer).0) [
            | inl infected ↦ rw (valid, allowed, infected) kept
            | inr clean ↦
                rw (valid, allowed, clean)
                  (store_scanned-AllWithin user_id original_name mime_type buffer file_id row_id now
                    (record s { quotas = quotas }) (has_room user_id size s.quotas h allowed) kept)
          ]
        ]
      ]

  initialize-AllWithin :
      (user_id original_name mime_type : String) (total_size : ℕ) (file_id : String)
      (s : FileStore S)
      → AllWithin s.quotas
      → AllWithin
          (initialize_chunked_upload services user_id original_name mime_type total_size file_id
            s).1.quotas
  unfolding initialize_chunked_upload
  initialize-AllWithin user_id original_name mime_type total_size file_id s h =
      let kept = checked user_id total_size s.quotas h in
      elim (Option-cases (validate_file mime_type total_size)) [
        | inr (error, bad) ↦ rw bad h
        | inl valid ↦ elim (Bool-cases (check_storage_quota user_id total_size s.quotas).0) [
          | inr full ↦ rw (valid, full) kept
          | inl allowed ↦
              elim (Option-cases (
                services.initialize_multipart_upload
                  (new_path services user_id file_id original_name) mime_type s.storage)) [
                    | inl failed ↦ rw (valid, allowed, failed) kept
                    | inr (begun, worked) ↦ rw (valid, allowed, worked) kept
                  ]
        ]
      ]

  chunk-quotas :
      (upload_id : String) (part_number : ℕ) (buffer : B) (s : FileStore S)
      → (upload_chunk services upload_id part_number buffer s).1.quotas ≡ s.quotas
  unfolding upload_chunk
  chunk-quotas upload_id part_number buffer s = ground arith

  delete-quotas :
      (user_id file_id : String) (now : ℕ) (s : FileStore S)
      → (delete_file services user_id file_id now s).1.quotas ≡ s.quotas
  unfolding delete_file
  delete-quotas user_id file_id now s = ground arith

  -- A call other than the completion of a chunked upload.
  pub data Operation : Type 0 where
    uploading : String → String → String → B → String → String → ℕ → Operation
    initializing : String → String → String → ℕ → String → Operation
    sending : String → ℕ → B → Operation
    deleting : String → String → ℕ → Operation

  abbrev step : Operation → FileStore S → FileStore S
  step (uploading user_id original_name mime_type buffer file_id row_id now) s =
      (upload_file services user_id original_name mime_type buffer file_id row_id now s).1
  step (initializing user_id original_name mime_type total_size file_id) s =
      (initialize_chunked_upload services user_id original_name mime_type total_size file_id s).1
  step (sending upload_id part_number buffer) s =
      (upload_chunk services upload_id part_number buffer s).1
  step (deleting user_id file_id now) s = (delete_file services user_id file_id now s).1

  abbrev pub run : List Operation → FileStore S → FileStore S
  run [] s = s
  run (operation ∷ rest) s = run rest (step operation s)

  step-AllWithin :
      (operation : Operation) (s : FileStore S)
      → AllWithin s.quotas
      → AllWithin (step operation s).quotas
  step-AllWithin (uploading user_id original_name mime_type buffer file_id row_id now) s h =
      upload-AllWithin user_id original_name mime_type buffer file_id row_id now s h
  step-AllWithin (initializing user_id original_name mime_type total_size file_id) s h =
      initialize-AllWithin user_id original_name mime_type total_size file_id s h
  step-AllWithin (sending upload_id part_number buffer) s h =
      rw (chunk-quotas upload_id part_number buffer s) h
  step-AllWithin (deleting user_id file_id now) s h = rw (delete-quotas user_id file_id now s) h

  -- Whatever uploads, chunks and deletions are asked for, as long as no chunked upload is completed, the
  -- bytes that a quota counts as used stay within its maximum, whatever the optimizer, the scanner and the storage
  -- do.
  pub run-AllWithin :
      (operations : List Operation) (s : FileStore S)
      → AllWithin s.quotas
      → AllWithin (run operations s).quotas
  run-AllWithin [] s h = h
  run-AllWithin (operation ∷ rest) s h =
      run-AllWithin rest (step operation s) (step-AllWithin operation s h)

  -- Completing a chunked upload counts the size that the request states, whatever was sent and whatever
  -- the user's quota still allows.
  pub complete_uncapped :
      (user_id upload_id path original_name mime_type : String) (total_size : ℕ)
      (parts : List String) (row_id : String) (now : ℕ) (s : FileStore S) (storage : S)
      (q : StorageQuota)
      → services.complete_multipart_upload upload_id path parts s.storage ≡ some storage
      → JsMap.get user_id s.quotas ≡ some q
      → q.user_id ≡ user_id
      → JsMap.get user_id
          (complete_chunked_upload services user_id upload_id path original_name mime_type
            total_size parts row_id now s).1.quotas
        ≡ some (record q { used_bytes = q.used_bytes + total_size })
  unfolding complete_chunked_upload save_record new_record update_storage_quota add_bytes
  complete_uncapped user_id upload_id path original_name mime_type total_size parts row_id now s
        storage q worked here own =
      rw worked (rw here (rw (get-set, own, eq_refl user_id) refl))

-- ===== src/Files/Access.antt =====
-- Who reads and deletes a file, and what a reader gets.
use atraport_api.Prelude.{
  ℕ, String, true, false, some, ◌≡◌, refl, arith, Bool-cases, Option-cases, inl, inr, eq_refl,
  if◌then◌else◌,
}
use text.Mathlib.Text.{◌==◌}
use atraport_api.Prelude.JsMap
use atraport_api.Prelude.JsMap.{JsMap, get-set}
use atraport_api.Files.{
  FileRecord, Services, FileStore, Answer, fails, gives, not_found, forbidden, validate_file,
  check_storage_quota,
}
use atraport_api.Files.Service.{
  scan_buffer, optimize_image, new_record, new_path, save_record, save_stored, store_scanned,
  upload_file, owned, live, get_file, get_signed_url, delete_file,
}

module _ {B S : Type 0} (services : Services B S) where
  -- Another user's file is neither served nor linked nor deleted, and the refusal changes nothing.
  pub stranger_denied :
      (user_id file_id : String) (now : ℕ) (r : FileRecord) (s : FileStore S)
      → JsMap.get file_id s.records ≡ some r
      → (r.user_id == user_id) ≡ false
      → (get_file services user_id file_id s
          ≡ fails (if r.is_deleted then not_found else forbidden))
        × (get_signed_url services user_id file_id s
            ≡ fails (if r.is_deleted then not_found else forbidden))
        × (delete_file services user_id file_id now s ≡ (fails forbidden, s))
  unfolding get_file get_signed_url delete_file live owned
  stranger_denied user_id file_id now r s here other = elim (Bool-cases r.is_deleted) [
    | inl gone ↦ (rw here (rw gone refl), rw here (rw gone refl), rw here (rw other refl))
    | inr there ↦ (
      rw here (rw there (rw other refl)),
      rw here (rw there (rw other refl)),
      rw here (rw other refl),
    )
  ]

  -- A file that its owner deletes is from then on found by nobody, while its row stays.
  pub deleted_unreadable :
      (user_id reader file_id : String) (now : ℕ) (r : FileRecord) (s : FileStore S)
      → JsMap.get file_id s.records ≡ some r
      → r.id ≡ file_id
      → (r.user_id == user_id) ≡ true
      → let after = (delete_file services user_id file_id now s).1 in
        (get_file services reader file_id after ≡ fails not_found)
        × (get_signed_url services reader file_id after ≡ fails not_found)
        × (JsMap.get file_id after.records
            ≡ some (record r { is_deleted = true; updated_at = now }))
  unfolding get_file get_signed_url delete_file live owned
  deleted_unreadable user_id reader file_id now r s here own yours =
      let kept : JsMap.get file_id (delete_file services user_id file_id now s).1.records
          ≡ some (record r { is_deleted = true; updated_at = now }) =
        rw here (rw yours (rw (get-set, own, eq_refl file_id) refl)) in
      (rw kept refl, rw kept refl, kept)

  Serves : String → String → B → String → Answer FileRecord × FileStore S → Type 0
  Serves user_id row_id buffer mime_type (answer, after) =
      (r : FileRecord)
      → answer ≡ gives r
      → get_file services user_id row_id after ≡ gives (buffer, mime_type)

  -- What the storage is relied on for: a file that was stored is read back.
  abbrev pub ReadsBack : Type 0
  ReadsBack =
      (path mime_type : String) (data_ : B) (before after : S)
      → services.upload path data_ mime_type before ≡ some after
      → services.download path after ≡ some data_

  Serves-stored :
      (user_id row_id path mime_type : String) (buffer : B) (r : FileRecord) (s : FileStore S)
      → ReadsBack
      → r.id ≡ row_id
      → (r.user_id == user_id) ≡ true
      → r.is_deleted ≡ false
      → r.storage_path ≡ path
      → r.mime_type ≡ mime_type
      → Serves user_id row_id buffer mime_type
          (save_stored services r (services.upload path buffer mime_type s.storage) s)
  unfolding Serves save_record get_file live owned
  Serves-stored user_id row_id path mime_type buffer r s reads own yours there at mime r' e =
      elim (Option-cases (services.upload path buffer mime_type s.storage)) [
        | inl failed ↦ absurd (ground arith)
        | inr (storage, stored) ↦ rw stored (
            rw (get-set, own, eq_refl row_id)
              (rw (there, yours, at, reads path mime_type buffer s.storage storage stored, mime)
                refl))
      ]

  Serves-scanned :
      (user_id original_name mime_type : String) (buffer : B) (file_id row_id : String) (now : ℕ)
      (s : FileStore S)
      → ReadsBack
      → Serves user_id row_id
          (optimize_image services buffer mime_type).0
          mime_type
          (store_scanned services user_id original_name mime_type buffer file_id row_id now s)
  unfolding store_scanned
  Serves-scanned user_id original_name mime_type buffer file_id row_id now s reads =
      let (processed, compressed) = optimize_image services buffer mime_type in
      let path = new_path services user_id file_id original_name in
      unfold new_record in
      Serves-stored user_id row_id path mime_type processed
        (new_record services row_id user_id original_name mime_type
          (services.buffer_length processed) path compressed true now)
        s reads refl (eq_refl user_id) refl refl refl

  Serves-uploaded :
      (user_id original_name mime_type : String) (buffer : B) (file_id row_id : String) (now : ℕ)
      (s : FileStore S)
      → ReadsBack
      → Serves user_id row_id
          (optimize_image services buffer mime_type).0
          mime_type
          (upload_file services user_id original_name mime_type buffer file_id row_id now s)
  unfolding Serves upload_file
  Serves-uploaded user_id original_name mime_type buffer file_id row_id now s reads r e =
      let size = services.buffer_length buffer in
      let quotas = (check_storage_quota user_id size s.quotas).1 in
      elim (Option-cases (validate_file mime_type size)) [
        | inr (error, bad) ↦ absurd (ground arith)
        | inl valid ↦ elim (Bool-cases (check_storage_quota user_id size s.quotas).0) [
          | inr full ↦ absurd (ground arith)
          | inl allowed ↦ elim (Bool-cases (scan_buffer services services.scan_buffer buffer).0) [
            | inl infected ↦ absurd (ground arith)
            | inr clean ↦
                rw (valid, allowed, clean)
                  (Serves-scanned user_id original_name mime_type buffer file_id row_id now
                    (record s { quotas = quotas }) reads r (rw (valid, allowed, clean) at e))
          ]
        ]
      ]

  -- Where the storage reads back what it stored, a file that `uploadFile` accepted is served to its owner
  -- as the optimizer left it, with its type.
  pub get-upload_file :
      (user_id original_name mime_type : String) (buffer : B) (file_id row_id : String) (now : ℕ)
      (r : FileRecord) (s : FileStore S)
      → ReadsBack
      → (upload_file services user_id original_name mime_type buffer file_id row_id now s).0
        ≡ gives r
      → get_file services user_id row_id
          (upload_file services user_id original_name mime_type buffer file_id row_id now s).1
        ≡ gives ((optimize_image services buffer mime_type).0, mime_type)
  unfolding Serves
  get-upload_file user_id original_name mime_type buffer file_id row_id now r s reads e =
      Serves-uploaded user_id original_name mime_type buffer file_id row_id now s reads r e

-- ===== src/Tests/FileRuns.antt =====
-- src/files: runs of uploads, downloads and the collector, with text for buffers.
use Prim.Native.String.{count}
use atraport_api.Prelude.{String, true, false, none, some, [], ◌∷◌, ◌≡◌, refl, arith, eq_refl}
use atraport_api.Prelude.JsMap
use atraport_api.Prelude.JsMap.{JsMap, get-set}
use atraport_api.Files.{FileRecord, StorageQuota, Services, FileStore, fails, forbidden}
use atraport_api.Files.Service.{get_file, get_signed_url, delete_file}
use atraport_api.Files.Garbage.{cleanup_deleted_files, expired_removed}
use atraport_api.Files.Quota.{AllWithin, uploading, deleting, run, run-AllWithin}
use atraport_api.Files.Access.{ReadsBack, stranger_denied}

-- A storage that is a map, and an optimizer that keeps what it is given.
abbrev services : Services String (JsMap String)
services = record {
  buffer_length = count;
  extname = λ name. ".png";
  upload = λ path data_ mime_type storage. some (JsMap.set path data_ storage);
  initialize_multipart_upload = λ path mime_type storage. some ("u1", storage);
  upload_chunk = λ upload_id part_number data_ storage. some storage;
  complete_multipart_upload = λ upload_id path parts storage. some storage;
  download = λ path storage. JsMap.get path storage;
  remove = λ path storage. some (JsMap.delete path storage);
  get_signed_url = λ path seconds storage. some path;
  scan_buffer = none;
  sharp = λ mime_type data_. some data_;
  provider_name = none;
  cdn_base = none;
}

abbrev row : FileRecord
row = record {
  id = "r1";
  user_id = "u";
  original_name = "a.png";
  mime_type = "image/png";
  size = 3;
  storage_provider = "local";
  storage_path = "users/u/f1.png";
  cdn_url = none;
  is_compressed = false;
  is_scanned = true;
  is_infected = false;
  is_deleted = false;
  created_at = 5;
  updated_at = 5;
}

abbrev quota : StorageQuota
quota = record { user_id = "u"; used_bytes = 3; max_bytes = 10 }

abbrev store : FileStore (JsMap String)
store = record {
  records = ("r1", row) ∷ [];
  quotas = ("u", quota) ∷ [];
  storage = ("users/u/f1.png", "abc") ∷ [];
}

abbrev old_store : FileStore (JsMap String)
old_store = record store { records = ("r1", record row { is_deleted = true }) ∷ [] }

expired_removed_example :
    JsMap.get "r1" (cleanup_deleted_files services 9000000000 old_store).1.records ≡ none
unfolding JsMap.get
expired_removed_example =
    expired_removed services (λ path storage. (JsMap.delete path storage, refl)) "r1"
      (record row { is_deleted = true }) 9000000000 old_store (refl, refl, tt) refl refl

run-AllWithin_example :
    AllWithin
      (run services
        (uploading "u" "b.png" "image/png" "de" "f2" "r2" 7
          ∷ (uploading "u" "c.png" "image/png" "fghijk" "f3" "r3" 8 ∷ (deleting "u" "r1" 9 ∷ [])))
        store).quotas
run-AllWithin_example =
    run-AllWithin services
      (uploading "u" "b.png" "image/png" "de" "f2" "r2" 7
        ∷ (uploading "u" "c.png" "image/png" "fghijk" "f3" "r3" 8 ∷ (deleting "u" "r1" 9 ∷ [])))
      store ((omega arith), tt)

stranger_denied_example :
    (get_file services "v" "r1" store ≡ fails forbidden)
    × (get_signed_url services "v" "r1" store ≡ fails forbidden)
    × (delete_file services "v" "r1" 9 store ≡ (fails forbidden, store))
unfolding JsMap.get
stranger_denied_example = stranger_denied services "v" "r1" 9 row store refl refl

reads : ReadsBack services
reads path mime_type data_ before after e =
    let it : JsMap.set path data_ before ≡ after = ground arith in
    rw (← it) (rw (get-set, eq_refl path) refl)

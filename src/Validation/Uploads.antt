-- ===== src/Validation/Uploads.antt =====
-- src/validation/files/file-validation.ts: `validateFile` and `validateFiles`. Sizes in the options are in
-- bytes, as `parseSizeToBytes` reads them; an error is its field and its code.
pub mod Magic
pub mod Several
use atraport_api.Prelude.{
  ℕ, zero, suc, ◌+◌, ◌%◌, String, Bool, true, false, not, ◌&&◌, ◌||◌, Option, none, some, List, [],
  ◌∷◌, ltb, leb, nat_eq, length, any, find, map, truthy, to_lower_case, if◌then◌else◌,
}
use text.Mathlib.Text.{◌==◌, starts_with}
use Prim.Native.Char.{code}

pub record UploadedFile : Type 0 where
  pub fieldname : Option String
  pub original_name : String
  pub mimetype : String
  pub size : ℕ
  pub buffer : Option (List ℕ)

-- A MIME type, or a regular expression as its test.
pub data MimePattern : Type 0 where
  exact : String → MimePattern
  reg_exp : (String → Bool) → MimePattern

pub record FileValidationOptions : Type 0 where
  pub max_size : ℕ
  pub min_size : ℕ
  pub allowed_mime_types : Option (List MimePattern)
  pub allowed_extensions : Option (List String)
  pub validate_magic_bytes : Bool
  pub required : Bool

abbrev pub default_options : FileValidationOptions
default_options = record {
  max_size = 10485760;
  min_size = 1;
  allowed_mime_types = none;
  allowed_extensions = none;
  validate_magic_bytes = true;
  required = true;
}

pub data ErrorCode : Type 0 where
  required_file file_too_large file_too_small invalid_file_extension invalid_mime_type
        corrupted_or_spoofed_file required_files too_few_files too_many_files total_size_exceeded :
      ErrorCode

pub record FieldError : Type 0 where
  pub field : String
  pub code : ErrorCode

-- `buf[i] === n`, which is false past the end.
unfoldable pub byte_is : ℕ → ℕ → List ℕ → Bool
byte_is i n [] = false
byte_is zero n (b ∷ bs) = nat_eq b n
byte_is (suc i) n (b ∷ bs) = byte_is i n bs

-- `buf.toString('ascii', i, i + 1)` is the character: the decoder drops the top bit.
unfoldable pub ascii_is : ℕ → ℕ → List ℕ → Bool
ascii_is i n [] = false
ascii_is zero n (b ∷ bs) = nat_eq (b % 128) n
ascii_is (suc i) n (b ∷ bs) = ascii_is i n bs

pub record Signature : Type 0 where
  pub mime : String
  pub extensions : List String
  pub check : List ℕ → Bool

unfoldable pub is_jpeg : List ℕ → Bool
is_jpeg buf = leb 3 (length buf) && byte_is 0 0xff buf && byte_is 1 0xd8 buf && byte_is 2 0xff buf

unfoldable pub is_png : List ℕ → Bool
is_png buf =
    leb 8 (length buf)
    && byte_is 0 0x89 buf
    && byte_is 1 0x50 buf
    && byte_is 2 0x4e buf
    && byte_is 3 0x47 buf
    && byte_is 4 0x0d buf
    && byte_is 5 0x0a buf
    && byte_is 6 0x1a buf
    && byte_is 7 0x0a buf

unfoldable pub is_gif : List ℕ → Bool
is_gif buf =
    leb 6 (length buf)
    && byte_is 0 0x47 buf
    && byte_is 1 0x49 buf
    && byte_is 2 0x46 buf
    && byte_is 3 0x38 buf
    && (byte_is 4 0x37 buf || byte_is 4 0x39 buf)
    && byte_is 5 0x61 buf

unfoldable pub is_webp : List ℕ → Bool
is_webp buf =
    leb 12 (length buf)
    && ascii_is 0 b'R' buf
    && ascii_is 1 b'I' buf
    && ascii_is 2 b'F' buf
    && ascii_is 3 b'F' buf
    && ascii_is 8 b'W' buf
    && ascii_is 9 b'E' buf
    && ascii_is 10 b'B' buf
    && ascii_is 11 b'P' buf

unfoldable pub is_pdf : List ℕ → Bool
is_pdf buf =
    leb 4 (length buf)
    && ascii_is 0 b'%' buf
    && ascii_is 1 b'P' buf
    && ascii_is 2 b'D' buf
    && ascii_is 3 b'F' buf

unfoldable pub is_zip : List ℕ → Bool
is_zip buf =
    leb 4 (length buf)
    && byte_is 0 0x50 buf
    && byte_is 1 0x4b buf
    && (byte_is 2 0x03 buf || byte_is 2 0x05 buf || byte_is 2 0x07 buf)
    && (byte_is 3 0x04 buf || byte_is 3 0x06 buf || byte_is 3 0x08 buf)

abbrev pub magic_signatures : List Signature
magic_signatures =
    record { mime = "image/jpeg"; extensions = "jpg" ∷ "jpeg" ∷ []; check = is_jpeg }
    ∷ record { mime = "image/png"; extensions = "png" ∷ []; check = is_png }
    ∷ record { mime = "image/gif"; extensions = "gif" ∷ []; check = is_gif }
    ∷ record { mime = "image/webp"; extensions = "webp" ∷ []; check = is_webp }
    ∷ record { mime = "application/pdf"; extensions = "pdf" ∷ []; check = is_pdf }
    ∷ record { mime = "application/zip"; extensions = "zip" ∷ []; check = is_zip }
    ∷ []

-- The text after the last dot; the first argument is the answer where there is none.
unfoldable pub after_last_dot : String → String → String
after_last_dot found String.[] = found
after_last_dot found (String.◌∷◌ c s) = after_last_dot (if nat_eq (code c) b'.' then s else found) s

unfoldable pub extension_of : String → String
extension_of original_name = to_lower_case (after_last_dot "" original_name)

-- `e.startsWith('.') ? e.slice(1) : e`
abbrev pub without_dot : String → String
without_dot String.[] = ""
without_dot (String.◌∷◌ c s) = if nat_eq (code c) b'.' then s else String.◌∷◌ c s

unfoldable pub is_extension_allowed : String → List String → Bool
is_extension_allowed ext allowed =
    not (ext == "") && any (λ e. to_lower_case (without_dot e) == ext) allowed

unfoldable pub is_mime_allowed : String → List MimePattern → Bool
is_mime_allowed mimetype [] = false
is_mime_allowed mimetype (exact t ∷ rest) =
    to_lower_case t == to_lower_case mimetype || is_mime_allowed mimetype rest
is_mime_allowed mimetype (reg_exp test ∷ rest) = test mimetype || is_mime_allowed mimetype rest

-- An option that is missing or empty allows everything.
abbrev pub if_given {ℓ} : {A : Type ℓ} → Option (List A) → (List A → Bool) → Bool
if_given none allows = true
if_given (some []) allows = true
if_given (some (x ∷ xs)) allows = allows (x ∷ xs)

-- The first signature of the type or of the extension.
unfoldable pub matching_signature : String → String → Option Signature
matching_signature mimetype ext =
    find
      (λ (sig : Signature).
        to_lower_case sig.mime == to_lower_case mimetype
        || (not (ext == "") && any (λ e. e == ext) sig.extensions))
      magic_signatures

abbrev pub passes : Option Signature → List ℕ → Bool
passes none buf = true
passes (some sig) buf = sig.check buf

abbrev pub field_of : Option String → String
field_of fieldname = elim (truthy fieldname) [ none ↦ "file" | some name ↦ name ]

abbrev pub fault : UploadedFile → ErrorCode → Option FieldError
fault file code = some (record { field = field_of file.fieldname; code = code })

-- The error that is thrown, if one is.
unfoldable pub validate_buffer : UploadedFile → List ℕ → FileValidationOptions → Option FieldError
validate_buffer file buf options =
    let ext = extension_of file.original_name in
    if ltb options.max_size file.size
    then fault file file_too_large
    else if ltb file.size options.min_size
    then fault file file_too_small
    else if not (if_given options.allowed_extensions (is_extension_allowed ext))
    then fault file invalid_file_extension
    else if not (if_given options.allowed_mime_types (is_mime_allowed file.mimetype))
    then fault file invalid_mime_type
    else if options.validate_magic_bytes && not (passes (matching_signature file.mimetype ext) buf)
    then fault file corrupted_or_spoofed_file
    else none

abbrev pub missing : String → FileValidationOptions → Option FieldError
missing field options =
    if options.required then some (record { field = field; code = required_file }) else none

abbrev pub validate_uploaded :
    UploadedFile → Option (List ℕ) → FileValidationOptions → Option FieldError
validate_uploaded file none options = missing (field_of file.fieldname) options
validate_uploaded file (some buf) options = validate_buffer file buf options

unfoldable pub validate_file : Option UploadedFile → FileValidationOptions → Option FieldError
validate_file none options = missing "file" options
validate_file (some file) options = validate_uploaded file file.buffer options

pub record MultiFileValidationOptions : Type 0 where
  pub each : FileValidationOptions
  pub min_count : ℕ
  pub max_count : Option ℕ
  pub total_max_size : Option ℕ

abbrev of_files : ErrorCode → Option FieldError
of_files code = some (record { field = "files"; code = code })

abbrev pub exceeds : ℕ → Option ℕ → Bool
exceeds n none = false
exceeds n (some most) = ltb most n

abbrev pub total_size : List UploadedFile → ℕ
total_size [] = 0
total_size (file ∷ rest) = file.size + total_size rest

-- A limit of zero is none.
abbrev pub nonzero : Option ℕ → Option ℕ
nonzero none = none
nonzero (some zero) = none
nonzero (some (suc n)) = some (suc n)

abbrev pub or_else : Option FieldError → Option FieldError → Option FieldError
or_else (some error) later = some error
or_else none later = later

-- The files in turn, up to the first that is refused.
unfoldable pub validate_each : List UploadedFile → FileValidationOptions → Option FieldError
validate_each [] options = none
validate_each (file ∷ rest) options =
    let later = validate_each rest options in or_else (validate_file (some file) options) later

unfoldable pub validate_files : List UploadedFile → MultiFileValidationOptions → Option FieldError
validate_files [] options = if options.each.required then of_files required_files else none
validate_files (file ∷ rest) options =
    let files = file ∷ rest in
    if ltb (length files) options.min_count
    then of_files too_few_files
    else if exceeds (length files) options.max_count
    then of_files too_many_files
    else if exceeds (total_size files) (nonzero options.total_max_size)
    then of_files total_size_exceeded
    else validate_each files options.each

-- ===== src/Validation/Uploads/Magic.antt =====
-- What the content of an accepted file is.
use atraport_api.Prelude.{
  ℕ, String, Bool, true, false, ◌||◌, eq_iff, eq-false_of_ne, none, some, List, ◌≡◌, sym, ◌∙◌,
  arith, Bool-cases, inl, inr, if◌then◌else◌,
}
use text.Mathlib.Text.{◌==◌}
use atraport_api.Validation.Uploads.{
  UploadedFile, FileValidationOptions, is_jpeg, is_png, matching_signature, extension_of, passes,
  validate_buffer, validate_file,
}
use atraport_api.Prelude.{to_lower_case}

-- Every option but the signature holds back nothing.
passed :
    (file : UploadedFile) (buf : List ℕ) (options : FileValidationOptions)
    → options.validate_magic_bytes ≡ true
    → validate_buffer file buf options ≡ none
    → passes (matching_signature file.mimetype (extension_of file.original_name)) buf ≡ true
unfolding validate_buffer
passed file buf options on h = ground arith

abbrev pub is_jpeg_name : UploadedFile → Bool
is_jpeg_name file =
    extension_of file.original_name == "jpg" || extension_of file.original_name == "jpeg"

-- The signature of JPEG comes first, and its extensions are enough for it.
png_signature :
    (mimetype ext : String)
    → to_lower_case mimetype ≡ "image/png"
    → (buf : List ℕ)
    → passes (matching_signature mimetype ext) buf
      ≡ (if ext == "jpg" || ext == "jpeg" then is_jpeg buf else is_png buf)
unfolding matching_signature to_lower_case
png_signature mimetype ext png buf = elim (Bool-cases (ext == "jpg")) [
  | inl jpg ↦ let it : ext ≡ "jpg" = (eq_iff ext "jpg").0 jpg in rw it (ground arith)
  | inr not_jpg ↦ elim (Bool-cases (ext == "jpeg")) [
    | inl jpeg ↦ let it : ext ≡ "jpeg" = (eq_iff ext "jpeg").0 jpeg in rw it (ground arith)
    | inr other ↦
        let jpg' : ("jpg" == ext) ≡ false =
          eq-false_of_ne "jpg" ext (λ e. ground (arith, eq_iff ext "jpg", e)) in
        let jpeg' : ("jpeg" == ext) ≡ false =
          eq-false_of_ne "jpeg" ext (λ e. ground (arith, eq_iff ext "jpeg", e)) in
        rw (png, jpg', jpeg', not_jpg, other) (ground arith)
  ]
]

-- An accepted file that is declared as PNG, where the signature is checked, has the first bytes of a PNG file,
-- unless its name ends in jpg or jpeg: then it has those of a JPEG file, although it is declared as PNG.
pub accepted_png :
    (file : UploadedFile) (buf : List ℕ) (options : FileValidationOptions)
    → file.buffer ≡ some buf
    → options.validate_magic_bytes ≡ true
    → to_lower_case file.mimetype ≡ "image/png"
    → validate_file (some file) options ≡ none
    → (if is_jpeg_name file then is_jpeg buf else is_png buf) ≡ true
unfolding validate_file validate_buffer
accepted_png file buf options has on png accepted =
    let content : validate_buffer file buf options ≡ none = rw has at accepted in
    sym (png_signature file.mimetype (extension_of file.original_name) png buf)
    ∙ passed file buf options on content

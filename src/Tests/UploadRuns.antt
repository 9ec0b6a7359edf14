-- ===== src/Tests/UploadRuns.antt =====
-- src/validation: runs of the checks of uploaded files.
use atraport_api.Prelude.{ℕ, ◌≤◌, none, some, List, [], ◌∷◌, ◌≡◌, ◌↔◌, length, All}
use atraport_api.Validation.Uploads.{
  UploadedFile, MultiFileValidationOptions, default_options, validate_files, total_size, nonzero,
}
use atraport_api.Validation.Uploads.Several.{IsAccepted, IsAtMost, validate_files_iff}

abbrev bytes : List ℕ
bytes = 0x89 ∷ 0x50 ∷ 0x4e ∷ 0x47 ∷ 0x0d ∷ 0x0a ∷ 0x1a ∷ 0x0a ∷ 0 ∷ []

abbrev picture : UploadedFile
picture = record {
  fieldname = none;
  original_name = "a.b.PNG";
  mimetype = "image/PNG";
  size = 9;
  buffer = some bytes;
}

abbrev limits : MultiFileValidationOptions
limits = record {
  each = default_options;
  min_count = 1;
  max_count = some 3;
  total_max_size = some 20;
}

validate_files_iff_example : (validate_files (picture ∷ picture ∷ []) limits ≡ none) ↔ (
    (1 ≤ length (picture ∷ picture ∷ []))
    × IsAtMost (some 3) (length (picture ∷ picture ∷ []))
    × IsAtMost (nonzero (some 20)) (total_size (picture ∷ picture ∷ []))
    × All (IsAccepted default_options) (picture ∷ picture ∷ []))
validate_files_iff_example = validate_files_iff picture (picture ∷ []) limits

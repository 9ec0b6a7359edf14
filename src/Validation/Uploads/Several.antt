-- ===== src/Validation/Uploads/Several.antt =====
-- What `validateFiles` accepts.
use atraport_api.Prelude.{
  ℕ, ◌≤◌, false, Option, none, some, List, [], ◌∷◌, ◌≡◌, ◌↔◌, refl, arith, ltb, length, Bool-cases,
  Option-cases, inl, inr, All,
}
use atraport_api.Validation.Uploads.{
  UploadedFile, FileValidationOptions, MultiFileValidationOptions, validate_file, validate_each,
  exceeds, nonzero, total_size, validate_files,
}

abbrev pub IsAccepted : FileValidationOptions → UploadedFile → Type 0
IsAccepted options file = validate_file (some file) options ≡ none

abbrev pub IsAtMost : Option ℕ → ℕ → Type 0
IsAtMost none n = Unit
IsAtMost (some most) n = n ≤ most

exceeds_iff : (n : ℕ) (o : Option ℕ) → (exceeds n o ≡ false) ↔ IsAtMost o n
exceeds_iff n none = ((λ h. tt), (λ h. refl))
exceeds_iff n (some most) = ground arith

each_iff :
    (files : List UploadedFile) (options : FileValidationOptions)
    → (validate_each files options ≡ none) ↔ All (IsAccepted options) files
unfolding validate_each
each_iff [] options = ((λ h. tt), (λ h. refl))
each_iff (file ∷ rest) options =
    let later = each_iff rest options in
    elim (Option-cases (validate_file (some file) options)) [
      | inl fine ↦ rw fine ((λ h. (refl, later.0 h)), (λ h. later.1 h.1))
      | inr (error, bad) ↦ rw bad ((λ h. absurd (ground arith)), (λ h. absurd (ground arith)))
    ]

-- One file or more are accepted exactly if there are as many as asked for and no more, all of them together
-- are no larger than allowed, and `validateFile` accepts each.
pub validate_files_iff :
    (file : UploadedFile) (rest : List UploadedFile) (options : MultiFileValidationOptions)
    → let files = file ∷ rest in
      (validate_files files options ≡ none) ↔ (
        (options.min_count ≤ length files)
        × IsAtMost options.max_count (length files)
        × IsAtMost (nonzero options.total_max_size) (total_size files)
        × All (IsAccepted options.each) files)
unfolding validate_files
validate_files_iff file rest options =
    let files = file ∷ rest in
    let count = exceeds_iff (length files) options.max_count in
    let total = exceeds_iff (total_size files) (nonzero options.total_max_size) in
    let each = each_iff files options.each in
    elim (Bool-cases (ltb (length files) options.min_count)) [
      | inl few ↦ rw few ((λ h. absurd (ground arith)), (λ h. absurd (ground arith)))
      | inr enough ↦ elim (Bool-cases (exceeds (length files) options.max_count)) [
        | inl many ↦
            rw (enough, many)
              ((λ h. absurd (ground arith)), (λ h. absurd (ground (arith, count.1 h.1))))
        | inr fits ↦
            elim (Bool-cases (exceeds (total_size files) (nonzero options.total_max_size))) [
              | inl large ↦
                  rw (enough, fits, large)
                    ((λ h. absurd (ground arith)), (λ h. absurd (ground (arith, total.1 h.2))))
              | inr small ↦
                  rw (enough, fits, small)
                    (
                      (λ h. ((ground arith), count.0 fits, total.0 small, each.0 h)),
                      (λ h. each.1 h.3),
                    )
            ]
      ]
    ]

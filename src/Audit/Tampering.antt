-- ===== src/Audit/Tampering.antt =====
-- What the check of the audit log's checksums tells of an altered entry.
use atraport_api.Prelude.{
  String, true, false, List, [], ◌∷◌, ◌++◌, ◌≡◌, ◌≢◌, refl, sym, ap, ◌∙◌, arith, leb, Bool-cases,
  inl, inr, eq_iff, eq-false_of_ne,
}
use text.Mathlib.Text.{◌==◌}
use atraport_api.Audit.{
  AuditLog, Hashing, generate_checksum, insert_by_time, sort_by_time, verify_loop, verify_logs,
}

module _ {D : Type 0} where
  -- The two lists are the same but for one place, which holds the one entry or the other.
  abbrev Differ : AuditLog D → AuditLog D → List (AuditLog D) → List (AuditLog D) → Type 0
  Differ log log' xs ys =
      (before : List (AuditLog D)) × (after : List (AuditLog D)) × (xs ≡ before ++ log ∷ after)
      × (ys ≡ before ++ log' ∷ after)

  Differ-cons :
      (log log' first : AuditLog D) (xs ys : List (AuditLog D))
      → Differ log log' xs ys
      → Differ log log' (first ∷ xs) (first ∷ ys)
  Differ-cons log log' first xs ys (before, after, there, there') =
      (first ∷ before, after, ap (λ zs. first ∷ zs) there, ap (λ zs. first ∷ zs) there')

  insert-Differ :
      (log log' : AuditLog D) (logs : List (AuditLog D))
      → log'.created_at ≡ log.created_at
      → Differ log log' (insert_by_time log logs) (insert_by_time log' logs)
  unfolding insert_by_time
  insert-Differ log log' [] same = ([], [], refl, refl)
  insert-Differ log log' (first ∷ rest) same =
      let as_late : leb log'.created_at first.created_at ≡ leb log.created_at first.created_at =
        ap (λ t. leb t first.created_at) same in
      elim (Bool-cases (leb log.created_at first.created_at)) [
        | inl early ↦ rw (as_late ∙ early, early) ([], first ∷ rest, refl, refl)
        | inr late ↦
            rw (as_late ∙ late, late)
              (Differ-cons log log' first (insert_by_time log rest) (insert_by_time log' rest)
                (insert-Differ log log' rest same))
      ]

  insert_both :
      (log log' x : AuditLog D) (before after : List (AuditLog D))
      → log'.created_at ≡ log.created_at
      → Differ log log'
          (insert_by_time x (before ++ log ∷ after))
          (insert_by_time x (before ++ log' ∷ after))
  unfolding insert_by_time
  insert_both log log' x [] after same =
      let as_late : leb x.created_at log'.created_at ≡ leb x.created_at log.created_at =
        ap (λ t. leb x.created_at t) same in
      elim (Bool-cases (leb x.created_at log.created_at)) [
        | inl early ↦ rw (as_late ∙ early, early) (x ∷ [], after, refl, refl)
        | inr late ↦ rw (as_late ∙ late, late) ([], insert_by_time x after, refl, refl)
      ]
  insert_both log log' x (first ∷ before) after same =
      elim (Bool-cases (leb x.created_at first.created_at)) [
        | inl early ↦ rw early (x ∷ (first ∷ before), after, refl, refl)
        | inr late ↦ rw late (
            Differ-cons log log' first (insert_by_time x (before ++ log ∷ after))
              (insert_by_time x (before ++ log' ∷ after))
              (insert_both log log' x before after same))
      ]

  sort-Differ :
      (log log' : AuditLog D) (before after : List (AuditLog D))
      → log'.created_at ≡ log.created_at
      → Differ log log'
          (sort_by_time (before ++ log ∷ after))
          (sort_by_time (before ++ log' ∷ after))
  unfolding sort_by_time
  sort-Differ log log' [] after same = insert-Differ log log' (sort_by_time after) same
  sort-Differ log log' (x ∷ before) after same =
      let (earlier, later, there, there') = sort-Differ log log' before after same in
      rw (there, there') (insert_both log log' x earlier later same)

  module _ (hashing : Hashing D) where
    -- Every chain in which the one entry is accepted reports the other alone.
    loop-altered :
        (log log' : AuditLog D) (before after : List (AuditLog D)) (previous : String)
        → log'.checksum ≡ log.checksum
        → ((p : String) → generate_checksum hashing log' p ≢ generate_checksum hashing log p)
        → verify_loop hashing previous (before ++ log ∷ after) ≡ []
        → verify_loop hashing previous (before ++ log' ∷ after) ≡ log'.id ∷ []
    unfolding verify_loop
    loop-altered log log' [] after previous same differs h =
        elim (Bool-cases (log.checksum == generate_checksum hashing log previous)) [
          | inr wrong ↦ absurd (ground arith)
          | inl right ↦
              let told : (log'.checksum == generate_checksum hashing log' previous) ≡ false =
                eq-false_of_ne log'.checksum (generate_checksum hashing log' previous) (λ e.
                  differs previous (
                    sym e
                    ∙ same
                    ∙ (eq_iff log.checksum (generate_checksum hashing log previous)).0 right)) in
              rw (told, same) (ground arith)
        ]
    loop-altered log log' (x ∷ before) after previous same differs h =
        elim (Bool-cases (x.checksum == generate_checksum hashing x previous)) [
          | inr wrong ↦ absurd (ground arith)
          | inl right ↦
              rw right (loop-altered log log' before after x.checksum same differs (ground arith))
        ]

-- Where the check accepts a list of entries, and one of them is replaced by an entry of the same time and
-- the same stored checksum whose content SHA-256 tells from the old one after any previous checksum, the
-- check fails and reports that entry alone, wherever it stands and in whatever order the entries come.
pub altered_reported :
    {D : Type 0} (hashing : Hashing D) (log log' : AuditLog D) (before after : List (AuditLog D))
    → log'.created_at ≡ log.created_at
    → log'.checksum ≡ log.checksum
    → ((p : String) → generate_checksum hashing log' p ≢ generate_checksum hashing log p)
    → (verify_logs hashing (before ++ log ∷ after)).valid ≡ true
    → ((verify_logs hashing (before ++ log' ∷ after)).valid ≡ false)
      × ((verify_logs hashing (before ++ log' ∷ after)).invalid_log_ids ≡ log'.id ∷ [])
unfolding verify_logs
altered_reported hashing log log' before after time same differs h =
    let (earlier, later, there, there') = sort-Differ log log' before after time in
    let accepted : verify_loop hashing "" (earlier ++ log ∷ later) ≡ [] =
      ap (verify_loop hashing "") (sym there) ∙ ground arith in
    let reported = loop-altered hashing log log' earlier later "" same differs accepted in
    (rw (there', reported) refl, rw (there', reported) refl)

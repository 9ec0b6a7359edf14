-- ===== src/Files/Garbage.antt =====
-- src/files/services/garbage-collector.service.ts. A row is removed by its identifier.
use atraport_api.Prelude.{
  ℕ, ◌+◌, String, Bool, true, false, ◌&&◌, Option, none, some, List, [], ◌∷◌, ◌≡◌, refl, sym, ap,
  ◌∙◌, arith, ltb, filter, Bool-cases, Option-cases, inl, inr, All, eq_iff,
}
use text.Mathlib.Text.{◌==◌}
use atraport_api.Prelude.JsMap
use atraport_api.Prelude.JsMap.{JsMap, values, get-delete}
use atraport_api.Files.{FileRecord, Services, FileStore}

-- Thirty days of 24 hours: `setDate` counts calendar days, which are as long where the clock keeps UTC.
abbrev pub retention_period : ℕ
retention_period = 2592000000

-- `isDeleted: true, updatedAt: LessThan(cutoffDate)`
abbrev pub is_expired : ℕ → FileRecord → Bool
is_expired now r = r.is_deleted && ltb (r.updated_at + retention_period) now

module _ {B S : Type 0} (services : Services B S) where
  -- A row stays where the storage cannot delete its file.
  abbrev pub collect_one : FileRecord → Option S → FileStore S → ℕ × FileStore S
  collect_one file none s = (0, s)
  collect_one file (some storage) s =
      (1, record s { records = JsMap.delete file.id s.records; storage = storage })

  unfoldable pub collect : List FileRecord → FileStore S → ℕ × FileStore S
  collect [] s = (0, s)
  collect (file ∷ rest) s =
      let (one, s') = collect_one file (services.remove file.storage_path s.storage) s in
      let (others, s'') = collect rest s' in (one + others, s'')

  -- It answers the number of rows removed.
  unfoldable pub cleanup_deleted_files : ℕ → FileStore S → ℕ × FileStore S
  cleanup_deleted_files now s = collect (filter (is_expired now) (values s.records)) s

  collect-keeps :
      (id : String) (files : List FileRecord) (s : FileStore S)
      → All (λ (file : FileRecord). (file.id == id) ≡ false) files
      → JsMap.get id (collect files s).1.records ≡ JsMap.get id s.records
  unfolding collect
  collect-keeps id [] s h = refl
  collect-keeps id (file ∷ rest) s (other, others) =
      elim (Option-cases (services.remove file.storage_path s.storage)) [
        | inl kept ↦ rw kept (collect-keeps id rest s others)
        | inr (storage, gone) ↦ rw gone (
            collect-keeps id rest
              (record s { records = JsMap.delete file.id s.records; storage = storage }) others
            ∙ rw (get-delete, other) refl)
      ]

-- Each row under its own identifier, and none twice.
abbrev pub IsKeyed : JsMap FileRecord → Type 0
IsKeyed [] = Unit
IsKeyed ((k, r) ∷ m) = (r.id ≡ k) × (JsMap.get k m ≡ none) × IsKeyed m

abbrev IsOther : String → FileRecord → Type 0
IsOther id file = (file.id == id) ≡ false

missing_others :
    (p : FileRecord → Bool) (id : String) (m : JsMap FileRecord)
    → IsKeyed m
    → JsMap.get id m ≡ none
    → All (IsOther id) (filter p (values m))
unfolding JsMap.get
missing_others p id [] keyed h = tt
missing_others p id ((k, r) ∷ m) (own, new, keyed) h = elim (Bool-cases (k == id)) [
  | inl same ↦ absurd (ground arith)
  | inr other ↦
      let later = missing_others p id m keyed (ground arith) in
      let this : (r.id == id) ≡ false = rw own other in
      elim (Bool-cases (p r)) [ inl taken ↦ rw taken (this, later) | inr left ↦ rw left later ]
]

kept_others :
    (p : FileRecord → Bool) (id : String) (r : FileRecord) (m : JsMap FileRecord)
    → IsKeyed m
    → JsMap.get id m ≡ some r
    → p r ≡ false
    → All (IsOther id) (filter p (values m))
unfolding JsMap.get
kept_others p id r [] keyed h keep = absurd (ground arith)
kept_others p id r ((k, w) ∷ m) (own, new, keyed) h keep = elim (Bool-cases (k == id)) [
  | inl same ↦
      let it : w ≡ r = ground arith in
      let unused : p w ≡ false = ap p it ∙ keep in
      let absent : JsMap.get id m ≡ none =
        ap (λ j. JsMap.get j m) (sym ((eq_iff k id).0 same)) ∙ new in
      rw unused (missing_others p id m keyed absent)
  | inr other ↦
      let later = kept_others p id r m keyed (ground arith) keep in
      let this : (w.id == id) ≡ false = rw own other in
      elim (Bool-cases (p w)) [ inl taken ↦ rw taken (this, later) | inr left ↦ rw left later ]
]

-- Where each row stands under its own identifier, the collector leaves every row that is not deleted, or
-- was changed in the last thirty days, as it was, whatever the storage does.
pub unexpired_kept :
    {B S : Type 0} (services : Services B S) (id : String) (r : FileRecord) (now : ℕ)
    (s : FileStore S)
    → IsKeyed s.records
    → JsMap.get id s.records ≡ some r
    → is_expired now r ≡ false
    → JsMap.get id (cleanup_deleted_files services now s).1.records ≡ some r
unfolding cleanup_deleted_files
unexpired_kept services id r now s keyed here fresh =
    collect-keeps services id (filter (is_expired now) (values s.records)) s
      (kept_others (is_expired now) id r s.records keyed here fresh)
    ∙ here

module _ {B S : Type 0} (services : Services B S)
    (removes : (path : String) (storage : S)
      → (after : S) × (services.remove path storage ≡ some after)) where
  collect_removed :
      (id : String) (files : List FileRecord) (s : FileStore S)
      → JsMap.get id s.records ≡ none
      → JsMap.get id (collect services files s).1.records ≡ none
  unfolding collect
  collect_removed id [] s h = h
  collect_removed id (file ∷ rest) s h =
      let (storage, gone) = removes file.storage_path s.storage in
      rw gone (
        collect_removed id rest
          (record s { records = JsMap.delete file.id s.records; storage = storage })
          (rw (get-delete, h) (ground arith)))

  collect-taken :
      (id : String) (file : FileRecord) (rest : List FileRecord) (s : FileStore S)
      → let (storage, gone) = removes file.storage_path s.storage in
        JsMap.get id (collect services (file ∷ rest) s).1.records
        ≡ JsMap.get id
            (collect services rest
              (record s { records = JsMap.delete file.id s.records; storage = storage })).1.records
  unfolding collect
  collect-taken id file rest s = rw ((removes file.storage_path s.storage).1) refl

  expired_taken :
      (p : FileRecord → Bool) (id : String) (r : FileRecord) (m : JsMap FileRecord)
      (s : FileStore S)
      → IsKeyed m
      → JsMap.get id m ≡ some r
      → p r ≡ true
      → JsMap.get id (collect services (filter p (values m)) s).1.records ≡ none
  unfolding JsMap.get
  expired_taken p id r [] s keyed h old = absurd (ground arith)
  expired_taken p id r ((k, w) ∷ m) s (own, new, keyed) h old = elim (Bool-cases (k == id)) [
    | inl same ↦
        let it : w ≡ r = ground arith in
        let used : p w ≡ true = ap p it ∙ old in
        let (storage, gone) = removes w.storage_path s.storage in
        rw used (
          collect-taken id w (filter p (values m)) s
          ∙ collect_removed id (filter p (values m))
              (record s { records = JsMap.delete w.id s.records; storage = storage })
              (get-delete w.id id s.records ∙ rw (own, same) refl))
    | inr other ↦ elim (Bool-cases (p w)) [
      | inl used ↦
          let (storage, gone) = removes w.storage_path s.storage in
          rw used (
            collect-taken id w (filter p (values m)) s
            ∙ expired_taken p id r m
                (record s { records = JsMap.delete w.id s.records; storage = storage }) keyed
                (ground arith) old)
      | inr unused ↦ rw unused (expired_taken p id r m s keyed (ground arith) old)
    ]
  ]

-- Where each row stands under its own identifier and the storage deletes what it is told to, the collector
-- removes every row that was deleted and last changed more than thirty days before.
pub expired_removed :
    {B S : Type 0} (services : Services B S)
    (removes : (path : String) (storage : S)
      → (after : S) × (services.remove path storage ≡ some after))
    (id : String) (r : FileRecord) (now : ℕ) (s : FileStore S)
    → IsKeyed s.records
    → JsMap.get id s.records ≡ some r
    → is_expired now r ≡ true
    → JsMap.get id (cleanup_deleted_files services now s).1.records ≡ none
unfolding cleanup_deleted_files
expired_removed services removes id r now s keyed here old =
    expired_taken services removes (is_expired now) id r s.records s keyed here old

-- ===== src/Logging/Redact/Paths.antt =====
-- What a reader of a redacted value finds at a path.
use atraport_api.Prelude.{
  ℕ, zero, suc, ◌+◌, ◌≤◌, String, Bool, true, false, not, Option, none, some, List, [], ◌∷◌, ◌++◌,
  ◌≡◌, refl, ap, ◌∙◌, arith, ltb, length, Bool-cases, Option-cases, inl, inr, All, eq_iff,
  if◌then◌else◌,
}
use text.Mathlib.Text.{◌==◌}
use atraport_api.Prelude.Json.{
  Value, null, undefined, bool, num, str, array, object, Items, no_items, item, Fields, no_entries,
  entry, lookup,
}
use atraport_api.Logging.Redact.{
  default_sensitive_keys, redacted, is_sensitive, redact, redact_items, redact_fields,
  redact_sensitive_data,
}

pub data Step : Type 0 where
  index : ℕ → Step
  key : String → Step

nth : ℕ → Items → Option Value
nth i no_items = none
nth zero (item v vs) = some v
nth (suc i) (item v vs) = nth i vs

child : Step → Value → Option Value
child (index i) (array xs) = nth i xs
child (key k) (object fs) = lookup k fs
child _ _ = none

abbrev bind : (Value → Option Value) → Option Value → Option Value
bind f none = none
bind f (some v) = f v

abbrev mapped : (Value → Value) → Option Value → Option Value
mapped f none = none
mapped f (some v) = some (f v)

-- The value at the end of the path, if there is one.
unfoldable pub at : List Step → Value → Option Value
unfolding child nth lookup
at [] v = some v
at (s ∷ path) v = bind (at path) (child s v)

module _ (keys : List String) where
  abbrev pub is_clean : Step → Bool
  is_clean (index i) = true
  is_clean (key k) = not (is_sensitive keys k)

  abbrev pub IsClean : List Step → Type 0
  IsClean path = All (λ s. is_clean s ≡ true) path

  nth-redact :
      (i depth : ℕ) (vs : Items)
      → nth i (redact_items keys depth vs) ≡ mapped (redact keys depth) (nth i vs)
  unfolding nth redact
  nth-redact i depth no_items = refl
  nth-redact zero depth (item v vs) = refl
  nth-redact (suc i) depth (item v vs) = nth-redact i depth vs

  lookup-redact :
      (k : String) (depth : ℕ) (fs : Fields)
      → lookup k (redact_fields keys depth fs)
        ≡ mapped (if is_sensitive keys k then (λ v. redacted) else redact keys depth) (lookup k fs)
  unfolding lookup redact
  lookup-redact k depth no_entries = refl
  lookup-redact k depth (entry j v fs) = elim (Bool-cases (j == k)) [
    | inr other ↦ rw other (lookup-redact k depth fs)
    | inl same ↦
        let it : is_sensitive keys j ≡ is_sensitive keys k =
          ap (is_sensitive keys) ((eq_iff j k).0 same) in
        elim (Bool-cases (is_sensitive keys k)) [
          | inl hide ↦ rw same (rw (it ∙ hide) (rw hide refl))
          | inr show ↦ rw same (rw (it ∙ show) (rw show refl))
        ]
  ]

  -- What a clean step finds in an array or an object that is not too deep.
  child-redact :
      (s : Step) (depth : ℕ) (v : Value)
      → depth ≤ 10
      → is_clean s ≡ true
      → child s (redact keys depth v) ≡ mapped (redact keys (depth + 1)) (child s v)
  unfolding child redact
  child-redact (index i) depth (array xs) h clean =
      let shallow : ltb 10 depth ≡ false = ground arith in rw shallow (nth-redact i (depth + 1) xs)
  child-redact (key k) depth (object fs) h clean =
      let shallow : ltb 10 depth ≡ false = ground arith in
      let shown : is_sensitive keys k ≡ false = ground arith in
      rw shallow (lookup-redact k (depth + 1) fs ∙ rw shown refl)
  child-redact (index i) depth (object fs) h clean = ground arith
  child-redact (key k) depth (array xs) h clean = ground arith
  child-redact (index i) depth null h clean = refl
  child-redact (index i) depth undefined h clean = refl
  child-redact (index i) depth (bool b) h clean = refl
  child-redact (index i) depth (num n) h clean = refl
  child-redact (index i) depth (str t) h clean = refl
  child-redact (key k) depth null h clean = refl
  child-redact (key k) depth undefined h clean = refl
  child-redact (key k) depth (bool b) h clean = refl
  child-redact (key k) depth (num n) h clean = refl
  child-redact (key k) depth (str t) h clean = refl

  hidden-redact :
      (k : String) (depth : ℕ) (v : Value)
      → depth ≤ 10
      → is_sensitive keys k ≡ true
      → child (key k) (redact keys depth v) ≡ mapped (λ w. redacted) (child (key k) v)
  unfolding child redact
  hidden-redact k depth (object fs) h hide =
      let shallow : ltb 10 depth ≡ false = ground arith in
      rw shallow (lookup-redact k (depth + 1) fs ∙ rw hide refl)
  hidden-redact k depth (array xs) h hide = ground arith
  hidden-redact k depth null h hide = refl
  hidden-redact k depth undefined h hide = refl
  hidden-redact k depth (bool b) h hide = refl
  hidden-redact k depth (num n) h hide = refl
  hidden-redact k depth (str t) h hide = refl

  -- A path with no sensitive key, that is not too long, leads to what was there, redacted.
  at-redact :
      (path : List Step) (depth : ℕ) (v : Value)
      → IsClean path
      → depth + length path ≤ 11
      → at path (redact keys depth v) ≡ mapped (redact keys (depth + length path)) (at path v)
  unfolding at
  at-redact [] depth v clean h = ap (λ n. some (redact keys n v)) (omega arith)
  at-redact (s ∷ path) depth v (here, later) h =
      rw (child-redact s depth v (omega arith) here) (elim (Option-cases (child s v)) [
        | inl missing ↦ rw missing refl
        | inr (w, there) ↦ rw there (
            at-redact path (depth + 1) w later (omega arith)
            ∙ ap (λ n. mapped (redact keys n) (at path w)) (omega arith))
      ])

  at-append : (path more : List Step) (v : Value) → at (path ++ more) v ≡ bind (at more) (at path v)
  unfolding at
  at-append [] more v = refl
  at-append (s ∷ path) more v = elim (Option-cases (child s v)) [
    | inl missing ↦ rw missing refl
    | inr (w, there) ↦ rw there (at-append path more w)
  ]

  at-child : (s : Step) (v : Value) → at (s ∷ []) v ≡ child s v
  unfolding at
  at-child s v = elim (Option-cases (child s v)) [
    | inl missing ↦ rw missing refl
    | inr (w, there) ↦ rw there refl
  ]

  -- Down to ten levels, what stands under a sensitive key is replaced: at a path whose other keys are not
  -- sensitive, a reader finds the mark exactly where the value had something.
  hidden_at :
      (path : List Step) (k : String) (v : Value)
      → IsClean path
      → length path ≤ 10
      → is_sensitive keys k ≡ true
      → at (path ++ (key k ∷ [])) (redact keys 0 v)
        ≡ mapped (λ w. redacted) (at (path ++ (key k ∷ [])) v)
  hidden_at path k v clean short hide =
      rw (at-append path (key k ∷ []) (redact keys 0 v), at-append path (key k ∷ []) v)
        (rw (at-redact path 0 v clean (omega arith)) (elim (Option-cases (at path v)) [
          | inl missing ↦ rw missing refl
          | inr (w, there) ↦ rw there (
              rw (at-child (key k) (redact keys (0 + length path) w), at-child (key k) w)
                (hidden-redact k (0 + length path) w (omega arith) hide))
        ]))

  redact_deep : (v : Value) → redact keys 11 v ≡ v
  unfolding redact
  redact_deep null = refl
  redact_deep undefined = refl
  redact_deep (bool b) = refl
  redact_deep (num n) = refl
  redact_deep (str s) = refl
  redact_deep (array xs) = refl
  redact_deep (object fs) = refl

-- In a redacted value, a path of at most eleven steps that ends in a sensitive key and passes no other leads
-- to the mark exactly where the value had something, and to nothing elsewhere.
pub sensitive_hidden :
    (path : List Step) (k : String) (v : Value)
    → IsClean default_sensitive_keys path
    → length path ≤ 10
    → is_sensitive default_sensitive_keys k ≡ true
    → at (path ++ (key k ∷ [])) (redact_sensitive_data v)
      ≡ mapped (λ w. redacted) (at (path ++ (key k ∷ [])) v)
unfolding redact_sensitive_data
sensitive_hidden path k v clean short hide =
    hidden_at default_sensitive_keys path k v clean short hide

-- Below eleven steps nothing is redacted: past a path of eleven that meets no sensitive key, a reader finds
-- all that the value had, under sensitive keys too.
pub deep_exposed :
    (path more : List Step) (v : Value)
    → IsClean default_sensitive_keys path
    → length path ≡ 11
    → at (path ++ more) (redact_sensitive_data v) ≡ at (path ++ more) v
unfolding redact_sensitive_data
deep_exposed path more v clean deep =
    let keys = default_sensitive_keys in
    rw (at-append keys path more (redact keys 0 v), at-append keys path more v)
      (rw (at-redact keys path 0 v clean (omega arith)) (elim (Option-cases (at path v)) [
        | inl missing ↦ rw missing refl
        | inr (w, there) ↦
            rw there (ap (at more) (ap (λ n. redact keys n w) (omega arith) ∙ redact_deep keys w))
      ]))

-- Where no sensitive key is met, a reader finds every value that is neither an array nor an object, and
-- nothing that was not there.
pub others_kept :
    (path : List Step) (v : Value)
    → IsClean default_sensitive_keys path
    → length path ≤ 11
    → at path (redact_sensitive_data v)
      ≡ mapped (redact default_sensitive_keys (length path)) (at path v)
unfolding redact_sensitive_data
others_kept path v clean short =
    at-redact default_sensitive_keys path 0 v clean (omega arith)
    ∙ ap (λ n. mapped (redact default_sensitive_keys n) (at path v)) (omega arith)

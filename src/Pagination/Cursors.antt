-- ===== src/Pagination/Cursors.antt =====
-- src/pagination/helpers: cursor.helper.ts, and the pages of pagination-query-builder.helper.ts and
-- pagination.helper.ts that cursors lead through, as `findAllCursor` of src/ai-triggers/ai-triggers.service.ts puts
-- them together. Sort values and identifiers are natural numbers. The database's answers in the two orders that
-- the program asks for are arguments; JSON and base64url are those of a codec.
pub mod Codecs
pub mod Walk
use atraport_api.Prelude.{
  ℕ, ◌+◌, String, Bool, true, false, ◌&&◌, ◌||◌, Option, none, some, List, [], ◌∷◌, ◌≡◌, ltb,
  nat_eq, length, filter, take, pop, split, truthy, is_char, ◌<>◌, if◌then◌else◌,
}
use text.Mathlib.Text.{◌==◌}

pub record CursorData : Type 0 where
  pub sort_value : ℕ
  pub id : ℕ

-- The object that a cursor holds: the properties `s` and `i`, `none` where one is undefined.
pub record Payload : Type 0 where
  pub s : Option ℕ
  pub i : Option ℕ

pub record Codec : Type 0 where
  -- `JSON.stringify` and `JSON.parse` of such an object.
  pub stringify : Payload → String
  pub to_base64url : String → String
  pub from_base64url : String → String
  -- `none` where it throws.
  pub parse : String → Option Payload

abbrev pub has_dot : String → Bool
has_dot String.[] = false
has_dot (String.◌∷◌ c s) = is_char c "." || has_dot s

-- What the conversions promise of an object: its base64url text has no dot, and what is written is read back.
pub record IsCodec (codec : Codec) : Type 0 where
  pub no_dot : (p : Payload) → has_dot (codec.to_base64url (codec.stringify p)) ≡ false
  pub base64url_back :
      (p : Payload)
      → codec.from_base64url (codec.to_base64url (codec.stringify p)) ≡ codec.stringify p
  pub json_back : (p : Payload) → codec.parse (codec.stringify p) ≡ some p

abbrev pub payload_of : CursorData → Payload
payload_of d = record { s = some d.sort_value; i = some d.id }

module _ (codec : Codec) where
  unfoldable pub encode_cursor : CursorData → String
  encode_cursor d = "v1" <> ("." <> codec.to_base64url (codec.stringify (payload_of d)))

  abbrev pub data_of : Option Payload → Option CursorData
  data_of none = none
  data_of (some p) = elim p.s [
    | none ↦ none
    | some s ↦ elim p.i [ none ↦ none | some i ↦ some (record { sort_value = s; id = i }) ]
  ]

  abbrev pub data_of_parts : List String → Option CursorData
  data_of_parts (version ∷ (payload ∷ [])) =
      if version == "v1" then data_of (codec.parse (codec.from_base64url payload)) else none
  data_of_parts _ = none

  -- `none` is the BadRequestException.
  unfoldable pub decode_cursor : String → Option CursorData
  decode_cursor cursor = elim (truthy (some cursor)) [
    | none ↦ none
    | some given ↦ data_of_parts (split "." given)
  ]

pub data SortOrder : Type 0 where
  asc desc : SortOrder

pub record CursorPaginationMeta : Type 0 where
  pub next_cursor : Option String
  pub has_next : Bool
  pub has_previous : Bool
  pub limit : ℕ

pub record CursorPaginatedResponse (A : Type 0) : Type 0 where
  pub items : List A
  pub meta : CursorPaginationMeta

unfoldable pub create_cursor_from_item : Codec → Option ℕ → Option ℕ → Option String
create_cursor_from_item codec (some sort_value) (some id) =
    some (encode_cursor codec (record { sort_value = sort_value; id = id }))
create_cursor_from_item codec _ _ = none

-- `xs[xs.length - 1]`
unfoldable pub last {ℓ} : {A : Type ℓ} → List A → Option A
last [] = none
last (x ∷ []) = some x
last (x ∷ (y ∷ ys)) = last (y ∷ ys)

-- The two columns of an item.
module _ {A : Type 0} (codec : Codec) (sort_of id_of : A → ℕ) where
  abbrev pub cursor_of_last : Option A → Option String
  cursor_of_last none = none
  cursor_of_last (some item) =
      create_cursor_from_item codec (some (sort_of item)) (some (id_of item))

  unfoldable pub build_cursor_pagination_meta : List A → ℕ → Bool → CursorPaginationMeta
  build_cursor_pagination_meta items limit has_more = record {
    next_cursor = if has_more then cursor_of_last (last items) else none;
    has_next = has_more;
    has_previous = false;
    limit = limit;
  }

  -- The condition of `applyCursorPagination`.
  unfoldable pub is_after : SortOrder → CursorData → A → Bool
  is_after asc d item =
      ltb d.sort_value (sort_of item) || nat_eq (sort_of item) d.sort_value && ltb d.id (id_of item)
  is_after desc d item =
      ltb (sort_of item) d.sort_value || nat_eq (sort_of item) d.sort_value && ltb (id_of item) d.id

  -- Of the rows in the order of the sort value and the identifier.
  unfoldable pub apply_cursor_pagination : SortOrder → ℕ → CursorData → List A → List A
  apply_cursor_pagination order limit d ordered =
      take (limit + 1) (filter (is_after order d) ordered)

  unfoldable pub page_of : ℕ → List A → CursorPaginatedResponse A
  page_of limit results =
      let has_more = ltb limit (length results) in
      let items = if has_more then pop results else results in
      record { items = items; meta = build_cursor_pagination_meta items limit has_more }

  abbrev pub page_after :
      SortOrder → ℕ → List A → Option CursorData → Option (CursorPaginatedResponse A)
  page_after order limit ordered none = none
  page_after order limit ordered (some d) =
      some (page_of limit (apply_cursor_pagination order limit d ordered))

  abbrev pub page_at :
      SortOrder → ℕ → List A → List A → Option String → Option (CursorPaginatedResponse A)
  page_at order limit sorted ordered none = some (page_of limit (take (limit + 1) sorted))
  page_at order limit sorted ordered (some cursor) =
      page_after order limit ordered (decode_cursor codec cursor)

  -- The rows in the order of the sort value alone, which the first page asks for, and in the order of both.
  unfoldable pub find_all_cursor :
      SortOrder → ℕ → List A → List A → Option String → Option (CursorPaginatedResponse A)
  find_all_cursor order limit sorted ordered cursor =
      page_at order limit sorted ordered (truthy cursor)

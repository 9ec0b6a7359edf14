-- ===== src/Pagination/Cursors/Walk.antt =====
-- Following the cursors from the first page to the last.
use atraport_api.Prelude.{
  ℕ, zero, suc, ◌+◌, ◌≤◌, ◌<◌, String, Bool, true, false, Option, none, some, List, [], ◌∷◌, ◌++◌,
  ◌≡◌, refl, sym, ap, ◌∙◌, arith, ltb, length, filter, take, drop, take-drop, take-take-suc,
  length-drop, pop, pop-eq-take, take_all, All, Bool-cases, inl, inr,
}
use mathlib.Core.List.{append_assoc}
use mathlib.Core.Path.{subst}
use atraport_api.Pagination.Cursors.{
  CursorData, Codec, IsCodec, encode_cursor, SortOrder, asc, desc, CursorPaginatedResponse,
  create_cursor_from_item, last, build_cursor_pagination_meta, is_after, apply_cursor_pagination,
  page_of, find_all_cursor,
}
use atraport_api.Pagination.Cursors.Codecs.{decode-encode_cursor, truthy-encode_cursor}

abbrev prepend {ℓ} : {A : Type ℓ} → List A → Option (List A) → Option (List A)
prepend xs none = none
prepend xs (some ys) = some (xs ++ ys)

abbrev continued {ℓ} :
    {A : Type ℓ} → List A → Option String → (String → Option (List A)) → Option (List A)
continued items none rest = some items
continued items (some cursor) rest = prepend items (rest cursor)

abbrev visit :
    {A : Type 0} → Option (CursorPaginatedResponse A) → (String → Option (List A)) → Option (List A)
visit none rest = none
visit (some page) rest = continued page.items page.meta.next_cursor rest

-- The first items of a list that is longer, as the last of them and those before it.
pub record Cut {A : Type 0} (n : ℕ) (xs : List A) : Type 0 where
  pub front : List A
  pub item : A
  pub eq : take n xs ≡ front ++ (item ∷ [])

cut : {A : Type 0} (n : ℕ) (xs : List A) → 1 ≤ n → n < length xs → Cut n xs
cut zero xs h k = absurd (omega arith)
cut (suc n) [] h k = absurd (omega arith)
cut (suc zero) (x ∷ xs) h k = record { front = []; item = x; eq = refl }
cut (suc (suc n)) (x ∷ xs) h k =
    let later = cut (suc n) xs (omega arith) (omega arith) in
    record { front = x ∷ later.front; item = later.item; eq = ap (λ ys. x ∷ ys) later.eq }

last_snoc : {A : Type 0} (xs : List A) (x : A) → last (xs ++ (x ∷ [])) ≡ some x
unfolding last
last_snoc [] x = refl
last_snoc (y ∷ []) x = refl
last_snoc (y ∷ (z ∷ zs)) x = last_snoc (z ∷ zs) x

All-middle :
    {A : Type 0} (P : A → Type 0) (q : List A) (k : A) (suf : List A) → All P (q ++ (k ∷ suf)) → P k
All-middle P [] k suf (h, hs) = h
All-middle P (x ∷ q) k suf (h, hs) = All-middle P q k suf hs

module _ {A : Type 0} (codec : Codec) (sort_of id_of : A → ℕ) (order : SortOrder) where
  abbrev pub key : A → CursorData
  key item = record { sort_value = sort_of item; id = id_of item }

  abbrev pub comes_before : A → A → Bool
  comes_before x y = is_after codec sort_of id_of order (key x) y

  -- Each row comes before those that follow it: no two rows have the same key.
  abbrev pub Ordered : List A → Type 0
  Ordered [] = Unit
  Ordered (x ∷ xs) = All (λ y. comes_before x y ≡ true) xs × Ordered xs

  not_after_itself : (x : A) → comes_before x x ≡ false
  unfolding is_after
  not_after_itself x = elim order [ asc ↦ ground arith | desc ↦ ground arith ]

  not_after_later : (x y : A) → comes_before x y ≡ true → comes_before y x ≡ false
  unfolding is_after
  not_after_later x y h = elim order [ asc ↦ ground arith | desc ↦ ground arith ]

  followers_kept :
      (k : A) (suf : List A)
      → All (λ y. comes_before k y ≡ true) suf
      → filter (comes_before k) suf ≡ suf
  followers_kept k [] h = refl
  followers_kept k (x ∷ xs) (h, hs) = rw h (ap (λ ys. x ∷ ys) (followers_kept k xs hs))

  -- After the key of a row come the rows that follow it.
  after_row :
      (q : List A) (k : A) (suf : List A)
      → Ordered (q ++ (k ∷ suf))
      → filter (comes_before k) (q ++ (k ∷ suf)) ≡ suf
  after_row [] k suf (h, hs) = rw (not_after_itself k) (followers_kept k suf h)
  after_row (x ∷ q) k suf (h, hs) =
      rw (not_after_later x k (All-middle (λ y. comes_before x y ≡ true) q k suf h))
        (after_row q k suf hs)

  length-take_long : (n : ℕ) (xs : List A) → n ≤ length xs → length (take n xs) ≡ n
  length-take_long zero xs h = refl
  length-take_long (suc n) [] h = absurd (omega arith)
  length-take_long (suc n) (x ∷ xs) h = omega (arith, length-take_long n xs (omega arith))

  abbrev pub cursor_of : A → String
  cursor_of item = encode_cursor codec (key item)

  module _ (limit : ℕ) where
    -- The items of the pages, from a cursor on; each page costs a step.
    unfoldable pub walk : ℕ → List A → Option String → Option (List A)
    walk zero rows cursor = none
    walk (suc n) rows cursor =
        visit (find_all_cursor codec sort_of id_of order limit rows rows cursor)
          (λ c. walk n rows (some c))

    abbrev pub page : List A → CursorPaginatedResponse A
    page suf = page_of codec sort_of id_of limit (take (limit + 1) suf)

    -- A page of the rows that are left, if what its cursor leads to are the rows after its last one.
    visit_page :
        (suf : List A) (rest : String → Option (List A))
        → 1 ≤ limit
        → ((front : List A) (k : A) (later : List A)
            → suf ≡ front ++ (k ∷ later)
            → length later < length suf
            → rest (cursor_of k) ≡ some later)
        → visit (some (page suf)) rest ≡ some suf
    unfolding page_of build_cursor_pagination_meta create_cursor_from_item
    visit_page suf rest pos follow = elim (Bool-cases (ltb limit (length suf))) [
      | inl more ↦
          let c = cut limit suf pos (ground arith) in
          let shown = take (limit + 1) suf in
          let long : length shown ≡ limit + 1 = length-take_long (limit + 1) suf (ground arith) in
          let over : ltb limit (length shown) ≡ true = ground arith in
          let cut_off : pop shown ≡ take limit suf =
            pop-eq-take shown limit (omega (arith, long))
            ∙ (let next : limit + 1 ≡ suc limit = omega arith in
                rw next (take-take-suc limit suf)) in
          let ends : last (take limit suf) ≡ some c.item =
            ap last c.eq ∙ last_snoc c.front c.item in
          let parts : suf ≡ c.front ++ (c.item ∷ drop limit suf) =
            sym (take-drop limit suf)
            ∙ ap (λ ys. ys ++ drop limit suf) c.eq
            ∙ append_assoc c.front (c.item ∷ []) (drop limit suf) in
          let fewer : length (drop limit suf) < length suf =
            ground (arith, length-drop limit suf) in
          rw over (
            rw cut_off (
              rw ends (
                rw (follow c.front c.item (drop limit suf) parts fewer)
                  (ap some (take-drop limit suf)))))
      | inr fits ↦
          let whole : take (limit + 1) suf ≡ suf = take_all (limit + 1) suf (ground arith) in
          rw whole (rw fits refl)
    ]

    -- From the cursor of a row, the walk answers the rows that follow it.
    walk_from :
        IsCodec codec
        → 1 ≤ limit
        → (n : ℕ) (rows q : List A) (k : A) (suf : List A) → rows ≡ q ++ (k ∷ suf)
        → Ordered rows
        → length suf < n
        → walk n rows (some (cursor_of k)) ≡ some suf
    unfolding walk find_all_cursor apply_cursor_pagination
    walk_from laws pos zero rows q k suf e sorted enough = absurd (omega arith)
    walk_from laws pos (suc n) rows q k suf e sorted enough =
        let after : filter (comes_before k) rows ≡ suf =
          ap (filter (comes_before k)) e ∙ after_row q k suf (subst Ordered e sorted) in
        rw (truthy-encode_cursor codec (key k)) (
          rw (decode-encode_cursor codec laws (key k)) (
            rw after (
              visit_page suf (λ c. walk n rows (some c)) pos
                (λ front k' later eq lt.
                  walk_from laws pos n rows (q ++ (k ∷ front)) k' later
                    (e ∙ ap (λ s. q ++ (k ∷ s)) eq ∙ sym (append_assoc q (k ∷ front) (k' ∷ later)))
                    sorted (omega arith)))))

-- Where no two rows have the same sort value and identifier, the first page lists rows of one sort value by their
-- identifiers, and a page has room for a row, following the cursors from the first page on answers each row
-- once, in order, and ends after at most one page more than there are rows.
pub walk_all :
    {A : Type 0} (codec : Codec) (sort_of id_of : A → ℕ) (order : SortOrder) (limit : ℕ)
    (rows : List A)
    → IsCodec codec
    → 1 ≤ limit
    → Ordered codec sort_of id_of order rows
    → walk codec sort_of id_of order limit (suc (length rows)) rows none ≡ some rows
unfolding walk find_all_cursor
walk_all codec sort_of id_of order limit rows laws pos sorted =
    visit_page codec sort_of id_of order limit rows
      (λ c. walk codec sort_of id_of order limit (length rows) rows (some c)) pos
      (λ front k later e lt.
        walk_from codec sort_of id_of order limit laws pos (length rows) rows front k later e sorted
          lt)

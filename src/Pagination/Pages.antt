-- ===== src/Pagination/Pages.antt =====
-- Every item is on one page, and the page's description says whether another follows.
use atraport_api.Prelude.{
  ℕ, zero, suc, ◌+◌, ◌-◌, ◌*◌, ◌/◌, ◌≤◌, ◌<◌, true, false, List, [], ◌∷◌, ◌++◌, ◌≡◌, refl, ap, ◌∙◌,
  ◌↔◌, arith, ltb, ltb→lt, length, inl, inr, Bool-cases, take, drop,
}
use native.Mathlib.Nat.{mul-le-mul_right, div-add-mod', mod-lt, suc-add}
use atraport_api.Pagination.{build_pagination_meta}

module _ {ℓ} {A : Type ℓ} where
  -- `xs.slice(start, start + limit)` of the page.
  abbrev pub page_items : ℕ → ℕ → List A → List A
  page_items page limit xs = take limit (drop ((page - 1) * limit) xs)

  -- The items of the first pages, one page after the other.
  abbrev pub first_pages : ℕ → ℕ → List A → List A
  first_pages zero limit xs = []
  first_pages (suc n) limit xs = first_pages n limit xs ++ page_items (suc n) limit xs

  take_nil : (n : ℕ) → take {A = A} n [] ≡ []
  take_nil zero = refl
  take_nil (suc n) = refl

  take-add : (m n : ℕ) (xs : List A) → take m xs ++ take n (drop m xs) ≡ take (m + n) xs
  take-add zero n xs = ground arith
  take-add (suc m) n [] = simp suc-add (take_nil n)
  take-add (suc m) n (x ∷ xs) = simp suc-add (ap (λ ys. x ∷ ys) (take-add m n xs))

  take_enough : (n : ℕ) (xs : List A) → length xs ≤ n → take n xs ≡ xs
  take_enough zero [] h = refl
  take_enough zero (x ∷ xs) h = absurd (omega (arith, h))
  take_enough (suc n) [] h = refl
  take_enough (suc n) (x ∷ xs) h = ap (λ ys. x ∷ ys) (take_enough n xs (omega (arith, h)))

  first_pages-take : (n limit : ℕ) (xs : List A) → first_pages n limit xs ≡ take (n * limit) xs
  first_pages-take zero limit xs = ground arith
  first_pages-take (suc n) limit xs =
      let start : (suc n - 1) * limit ≡ n * limit = ap (λ m. m * limit) (omega arith) in
      let whole : n * limit + limit ≡ suc n * limit = omega arith in
      rw (first_pages-take n limit xs, start, take-add (n * limit) limit xs, whole) refl

total_pages_enough :
    (total page limit : ℕ)
    → 0 < limit
    → total ≤ (build_pagination_meta total page limit).total_pages * limit
unfolding build_pagination_meta
total_pages_enough total page limit pos =
    omega (arith, div-add-mod' (total + (limit - 1)) limit, mod-lt (total + (limit - 1)) pos)

has_next_iff :
    (total page limit : ℕ)
    → 0 < limit
    → ((build_pagination_meta total page limit).has_next ≡ true) ↔ (page * limit < total)
unfolding build_pagination_meta
has_next_iff total page limit pos =
    let q = (total + (limit - 1)) / limit in
    let split = div-add-mod' (total + (limit - 1)) limit in
    let small = mod-lt (total + (limit - 1)) pos in
    (
      (λ more.
          let step : (page + 1) * limit ≤ q * limit =
            mul-le-mul_right limit (omega (arith, ltb→lt page q more)) in
          omega (arith, split, small, step)),
      (λ left. elim (Bool-cases (ltb page q)) [
        | inl h ↦ h
        | inr h ↦
            let step : q * limit ≤ page * limit = mul-le-mul_right limit (ge page q h) in
            absurd (omega (arith, split, small, step, left))
      ]),
    )
  where
    ge : (page q : ℕ) → ltb page q ≡ false → q ≤ page
    ge page q h = ground arith

-- The pages of a list, up to the number that the description states, hold the whole list in its order,
-- and the description of a page says that another follows exactly if items are left after it.
pub pages_cover {ℓ} :
    {A : Type ℓ} (limit page : ℕ) (xs : List A)
    → 0 < limit
    → (first_pages (build_pagination_meta (length xs) page limit).total_pages limit xs ≡ xs)
      × (((build_pagination_meta (length xs) page limit).has_next ≡ true)
          ↔ (page * limit < length xs))
pages_cover limit page xs pos =
    let pages = (build_pagination_meta (length xs) page limit).total_pages in
    (
      first_pages-take pages limit xs
          ∙ take_enough (pages * limit) xs (total_pages_enough (length xs) page limit pos),
      has_next_iff (length xs) page limit pos,
    )

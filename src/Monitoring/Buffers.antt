-- ===== src/Monitoring/Buffers.antt =====
-- The bounded buffers of src/monitoring: an item is put first, and where there are then more than the bound,
-- the last one is dropped.
use atraport_api.Prelude.{
  ℕ, ◌≤◌, List, ◌∷◌, ◌≡◌, sym, ◌∙◌, arith, ltb, length, take, Bool-cases, inl, inr, if◌then◌else◌,
  take_all, length-take-le, take-take, pop, pop-eq-take,
}

module _ {ℓ} {A : Type ℓ} where
  -- `xs.unshift(x); if (xs.length > bound) xs.pop()`
  unfoldable pub unshift_bounded : ℕ → A → List A → List A
  unshift_bounded bound x xs = if ltb bound (length (x ∷ xs)) then pop (x ∷ xs) else x ∷ xs

  unshift-eq-take :
      (bound : ℕ) (x : A) (xs : List A)
      → length xs ≤ bound
      → unshift_bounded bound x xs ≡ take bound (x ∷ xs)
  unfolding unshift_bounded
  unshift-eq-take bound x xs h = elim (Bool-cases (ltb bound (length (x ∷ xs)))) [
    | inl more ↦ rw more (pop-eq-take (x ∷ xs) bound (ground arith))
    | inr fits ↦ rw fits (sym (take_all bound (x ∷ xs) (ground arith)))
  ]

  -- A buffer that holds the newest items of a sequence holds the newest ones of the longer sequence.
  pub unshift_newest :
      (bound : ℕ) (x : A) (all_items : List A)
      → unshift_bounded bound x (take bound all_items) ≡ take bound (x ∷ all_items)
  unshift_newest bound x all_items =
      unshift-eq-take bound x (take bound all_items) (length-take-le bound all_items)
      ∙ take-take bound x all_items

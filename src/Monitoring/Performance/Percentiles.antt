-- ===== src/Monitoring/Performance/Percentiles.antt =====
-- What the percentiles of the summary are, and how the counters relate.
use atraport_api.Prelude.{
  ℕ, zero, suc, ◌-◌, ◌*◌, ◌≤◌, ◌<◌, List, [], ◌∷◌, ◌≡◌, refl, ap, ◌∙◌, arith, leb, length, All,
  filter, Bool-cases, inl, inr,
}
use atraport_api.Monitoring.Performance.{
  Performance, insert, sort, nth, percentile_index, get_percentile, get_summary,
}

abbrev pub count_up_to : ℕ → List ℕ → ℕ
count_up_to v xs = length (filter (λ x. leb x v) xs)

abbrev AtLeast : ℕ → List ℕ → Type 0
AtLeast y xs = All (λ x. y ≤ x) xs

abbrev IsSorted : List ℕ → Type 0
IsSorted [] = Unit
IsSorted (x ∷ xs) = AtLeast x xs × IsSorted xs

AtLeast-lower : (y z : ℕ) (xs : List ℕ) → y ≤ z → AtLeast z xs → AtLeast y xs
AtLeast-lower y z [] h k = tt
AtLeast-lower y z (x ∷ xs) h k = ((omega arith), AtLeast-lower y z xs h k.1)

insert-AtLeast : (y x : ℕ) (xs : List ℕ) → y ≤ x → AtLeast y xs → AtLeast y (insert x xs)
unfolding insert
insert-AtLeast y x [] h k = (h, tt)
insert-AtLeast y x (z ∷ xs) h k = ground (arith, insert-AtLeast y x xs h k.1)

insert-IsSorted : (x : ℕ) (xs : List ℕ) → IsSorted xs → IsSorted (insert x xs)
unfolding insert
insert-IsSorted x [] s = (tt, tt)
insert-IsSorted x (y ∷ ys) s = elim (Bool-cases (leb x y)) [
  | inl low ↦ rw low ((ground arith, AtLeast-lower x y ys (ground arith) s.0), s)
  | inr high ↦ rw high (insert-AtLeast y x ys (ground arith) s.0, insert-IsSorted x ys s.1)
]

sort-IsSorted : (xs : List ℕ) → IsSorted (sort xs)
unfolding sort
sort-IsSorted [] = tt
sort-IsSorted (x ∷ xs) = insert-IsSorted x (sort xs) (sort-IsSorted xs)

count-insert : (v x : ℕ) (xs : List ℕ) → count_up_to v (insert x xs) ≡ count_up_to v (x ∷ xs)
unfolding insert
count-insert v x [] = refl
count-insert v x (y ∷ ys) = ground (arith, count-insert v x ys)

count-sort : (v : ℕ) (xs : List ℕ) → count_up_to v (sort xs) ≡ count_up_to v xs
unfolding sort
count-sort v [] = refl
count-sort v (x ∷ xs) = count-insert v x (sort xs) ∙ ground (arith, count-sort v xs)

length-insert : (x : ℕ) (xs : List ℕ) → length (insert x xs) ≡ suc (length xs)
unfolding insert
length-insert x [] = refl
length-insert x (y ∷ ys) = ground (arith, length-insert x ys)

length-sort : (xs : List ℕ) → length (sort xs) ≡ length xs
unfolding sort
length-sort [] = refl
length-sort (x ∷ xs) = length-insert x (sort xs) ∙ ap suc (length-sort xs)

nth-AtLeast : (y i : ℕ) (xs : List ℕ) → i < length xs → AtLeast y xs → y ≤ nth i xs
unfolding nth
nth-AtLeast y i [] h k = absurd (omega arith)
nth-AtLeast y zero (x ∷ xs) h k = k.0
nth-AtLeast y (suc i) (x ∷ xs) h k = nth-AtLeast y i xs (omega arith) k.1

-- At least the first ones of a sorted list are at most the one after them.
count-nth : (i : ℕ) (xs : List ℕ) → IsSorted xs → i < length xs → suc i ≤ count_up_to (nth i xs) xs
unfolding nth
count-nth i [] s h = absurd (omega arith)
count-nth zero (x ∷ xs) s h = ground arith
count-nth (suc i) (x ∷ xs) s h =
    let below : x ≤ nth i xs = nth-AtLeast x i xs (omega arith) s.0 in
    ground (arith, count-nth i xs s.1 (omega arith))

nth_mono : (i j : ℕ) (xs : List ℕ) → IsSorted xs → i ≤ j → j < length xs → nth i xs ≤ nth j xs
unfolding nth
nth_mono i j [] s h k = absurd (omega arith)
nth_mono zero zero (x ∷ xs) s h k = omega arith
nth_mono zero (suc j) (x ∷ xs) s h k = nth-AtLeast x j xs (omega arith) s.0
nth_mono (suc i) zero (x ∷ xs) s h k = absurd (omega arith)
nth_mono (suc i) (suc j) (x ∷ xs) s h k = nth_mono i j xs s.1 (omega arith) (omega arith)

index-lt : (n q : ℕ) → 0 < n → percentile_index n q < n
unfolding percentile_index
index-lt n q h = ground arith

index_mono : (n a b : ℕ) → a * n ≤ b * n → percentile_index n a ≤ percentile_index n b
unfolding percentile_index
index_mono n a b h = ground arith

index-rank : (n q : ℕ) → q * n ≤ 100 * n → q * n ≤ 100 * suc (percentile_index n q)
unfolding percentile_index
index-rank n q h = ground arith

module _ (latencies : List ℕ) (some_there : 0 < length latencies) where
  -- At least so many in a hundred of the latencies are at most the percentile.
  rank :
      (q : ℕ)
      → q * length latencies ≤ 100 * length latencies
      → q * length latencies ≤ 100 * count_up_to (get_percentile (sort latencies) q) latencies
  unfolding get_percentile
  rank q h =
      let n = length latencies in
      let sorted = sort latencies in
      let i = percentile_index n q in
      let inside : i < length sorted = rw length-sort (index-lt n q some_there) in
      let counted : suc i ≤ count_up_to (nth i sorted) latencies =
        rw (← count-sort (nth i sorted) latencies)
          (count-nth i sorted (sort-IsSorted latencies) inside) in
      rw length-sort (omega (arith, index-rank n q h, counted))

  ordered :
      (a b : ℕ)
      → a * length latencies ≤ b * length latencies
      → get_percentile (sort latencies) a ≤ get_percentile (sort latencies) b
  unfolding get_percentile
  ordered a b h =
      let n = length latencies in
      rw length-sort (
        nth_mono (percentile_index n a) (percentile_index n b) (sort latencies)
          (sort-IsSorted latencies) (index_mono n a b h) (rw length-sort (index-lt n b some_there)))

  extremes :
      (q : ℕ)
      → (nth 0 (sort latencies) ≤ get_percentile (sort latencies) q)
        × (get_percentile (sort latencies) q ≤ nth (length (sort latencies) - 1) (sort latencies))
  unfolding get_percentile
  extremes q =
      let n = length latencies in
      let sorted = sort latencies in
      let inside : percentile_index (length sorted) q < length sorted =
        index-lt (length sorted) q (rw length-sort some_there) in
      (
        nth_mono 0 (percentile_index (length sorted) q) sorted (sort-IsSorted latencies)
            (omega arith) inside,
        nth_mono (percentile_index (length sorted) q) (length sorted - 1) sorted
            (sort-IsSorted latencies) (omega (arith, inside)) (omega (arith, inside)),
      )

-- Where a latency was recorded, the summary's percentiles stand in their order between the least and the
-- greatest latency, and at least 50, 90, 95 and 99 of a hundred latencies are at most the one that is given
-- for them.
pub get_summary_lem :
    (p : Performance)
    → 0 < length p.latencies
    → let s = get_summary p in
      let n = length p.latencies in
      (s.least ≤ s.p50)
      × (s.p50 ≤ s.p90)
      × (s.p90 ≤ s.p95)
      × (s.p95 ≤ s.p99)
      × (s.p99 ≤ s.most)
      × (50 * n ≤ 100 * count_up_to s.p50 p.latencies)
      × (90 * n ≤ 100 * count_up_to s.p90 p.latencies)
      × (95 * n ≤ 100 * count_up_to s.p95 p.latencies)
      × (99 * n ≤ 100 * count_up_to s.p99 p.latencies)
unfolding get_summary
get_summary_lem p h = (
  (extremes p.latencies h 50).0,
  ordered p.latencies h 50 90 (omega arith),
  ordered p.latencies h 90 95 (omega arith),
  ordered p.latencies h 95 99 (omega arith),
  (extremes p.latencies h 99).1,
  rank p.latencies h 50 (omega arith),
  rank p.latencies h 90 (omega arith),
  rank p.latencies h 95 (omega arith),
  rank p.latencies h 99 (omega arith),
)

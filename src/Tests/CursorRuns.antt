-- ===== src/Tests/CursorRuns.antt =====
-- Runs of the cursor pages over a small table.
use atraport_api.Prelude.{
  ℕ, zero, suc, ◌+◌, ◌/◌, String, false, Option, none, some, List, [], ◌∷◌, ◌≡◌, refl, arith,
  is_char, if◌then◌else◌, ap, ◌∙◌,
}
use atraport_api.Pagination.Cursors.{
  Payload, Codec, IsCodec, has_dot, is_after, desc, decode_cursor, encode_cursor,
}
use atraport_api.Pagination.Cursors.Codecs.{decode-encode_cursor}
use atraport_api.Pagination.Cursors.Walk.{Ordered, walk, walk_all}

-- A number as so many letters, before the rest of a text.
marks : ℕ → String → String
marks zero rest = rest
marks (suc n) rest = String.◌∷◌ "a" (marks n rest)

-- A property, where it is undefined begun with another letter.
property : Option ℕ → String → String
property none rest = String.◌∷◌ "u" rest
property (some n) rest = String.◌∷◌ "n" (marks n (String.◌∷◌ "b" rest))

write : Payload → String
unfolding property marks
write p = property p.s (property p.i "")

-- The letters that a text begins with, added to a count, and the rest without its first character.
count : ℕ → String → ℕ × String
count n String.[] = (n, "")
count n (String.◌∷◌ c s) = let more = count (n + 1) s in if is_char c "a" then more else (n, s)

-- A property at the beginning of a text, and the rest.
value : String → Option ℕ × String
unfolding count
value String.[] = (none, "")
value (String.◌∷◌ c s) =
    let (n, rest) = count 0 s in if is_char c "n" then (some n, rest) else (none, s)

read : String → Option Payload
unfolding value
read text =
    let (s, rest) = value text in let (i, end) = value rest in some (record { s = s; i = i })

marks-no_dot : (n : ℕ) (s : String) → has_dot s ≡ false → has_dot (marks n s) ≡ false
unfolding marks
marks-no_dot zero s h = h
marks-no_dot (suc n) s h = marks-no_dot n s h

count-marks : (n k : ℕ) (s : String) → count k (marks n (String.◌∷◌ "b" s)) ≡ (n + k, s)
unfolding marks count
count-marks zero k s = ap (λ (m : ℕ). (m, s)) (omega arith)
count-marks (suc n) k s = count-marks n (k + 1) s ∙ ap (λ (m : ℕ). (m, s)) (omega arith)

abbrev unary : Codec
unary = record { stringify = write; to_base64url = λ s. s; from_base64url = λ s. s; parse = read }

property-no_dot :
    (v : Option ℕ) (rest : String) → has_dot rest ≡ false → has_dot (property v rest) ≡ false
unfolding property
property-no_dot none rest h = h
property-no_dot (some n) rest h = marks-no_dot n _ h

value-property : (v : Option ℕ) (rest : String) → value (property v rest) ≡ (v, rest)
unfolding value property
value-property none rest = refl
value-property (some n) rest =
    let same : n + 0 ≡ n = omega arith in rw (count-marks n 0 rest) (rw same refl)

read-write : (p : Payload) → read (write p) ≡ some p
unfolding read write
read-write p = rw (value-property p.s (property p.i "")) (rw (value-property p.i "") refl)

unary-IsCodec : IsCodec unary
unfolding write
unary-IsCodec = record {
  no_dot = λ p. property-no_dot p.s _ (property-no_dot p.i "" refl);
  base64url_back = λ p. refl;
  json_back = read-write;
}

-- A row's identifier, and half of it as its sort value.
abbrev rows : List ℕ
rows = 5 ∷ 4 ∷ 1 ∷ []

decode-encode_cursor_example :
    decode_cursor unary (encode_cursor unary (record { sort_value = 3; id = 7 }))
    ≡ some (record { sort_value = 3; id = 7 })
decode-encode_cursor_example =
    decode-encode_cursor unary unary-IsCodec (record { sort_value = 3; id = 7 })

rows-Ordered : Ordered unary (λ n. n / 2) (λ n. n) desc rows
unfolding is_after
rows-Ordered = ((refl, (refl, tt)), ((refl, tt), (tt, tt)))

walk_all_example : walk unary (λ n. n / 2) (λ n. n) desc 2 4 rows none ≡ some rows
walk_all_example =
    walk_all unary (λ n. n / 2) (λ n. n) desc 2 rows unary-IsCodec (omega arith) rows-Ordered

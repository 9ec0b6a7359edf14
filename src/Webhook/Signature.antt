-- ===== src/Webhook/Signature.antt =====
-- src/webhook/webhook.service.ts: `verifySignature`, and what it accepts.
use Prim.Native.Char.{code}
use text.Mathlib.TextEquality.{Char-path}
use atraport_api.Prelude.{
  ℕ, ◌+◌, ◌/◌, ◌%◌, ◌<◌, String, Bool, true, false, ◌&&◌, List, [], ◌∷◌, ◌≡◌, refl, ◌↔◌, ◌⊎◌, arith,
  ltb, nat_eq, length, all, if◌then◌else◌, inl,
}
use atraport_api.Webhook.{WebhookEvent, Environment, sign_event}

unfoldable pub codes : String → List ℕ
codes String.[] = []
codes (String.◌∷◌ c s) = code c ∷ codes s

-- `s.length`: a character beyond the first 65536 takes two units of a JavaScript string.
unfoldable pub utf16_length : List ℕ → ℕ
utf16_length [] = 0
utf16_length (c ∷ cs) = (if ltb c 65536 then 1 else 2) + utf16_length cs

abbrev pub utf8_tail : ℕ → List ℕ → List ℕ
utf8_tail c rest =
    if ltb c 2048
    then (192 + c / 64) ∷ (128 + c % 64) ∷ rest
    else if ltb c 65536
    then (224 + c / 4096) ∷ (128 + c / 64 % 64) ∷ (128 + c % 64) ∷ rest
    else (240 + c / 262144) ∷ (128 + c / 4096 % 64) ∷ (128 + c / 64 % 64) ∷ (128 + c % 64) ∷ rest

-- The bytes of `Buffer.from(s)`.
unfoldable pub utf8 : List ℕ → List ℕ
utf8 [] = []
utf8 (c ∷ cs) = let rest = utf8 cs in if ltb c 128 then c ∷ rest else utf8_tail c rest

-- It answers, or `timingSafeEqual` throws a `RangeError`.
pub data Verification : Type 0 where
  verdict : Bool → Verification
  range_error : Verification

unfoldable pub equal_bytes : List ℕ → List ℕ → Bool
equal_bytes [] [] = true
equal_bytes (a ∷ as_) (b ∷ bs) = nat_eq a b && equal_bytes as_ bs
equal_bytes _ _ = false

-- `crypto.timingSafeEqual`, which throws for buffers of different lengths.
unfoldable pub timing_safe_equal : List ℕ → List ℕ → Verification
timing_safe_equal a b =
    if nat_eq (length a) (length b) then verdict (equal_bytes a b) else range_error

unfoldable pub compare_signatures : String → String → Verification
compare_signatures signature expected =
    if nat_eq (utf16_length (codes signature)) (utf16_length (codes expected))
    then timing_safe_equal (utf8 (codes signature)) (utf8 (codes expected))
    else verdict false

unfoldable pub verify_signature :
    {J : Type 0} → Environment J → String → WebhookEvent J → Verification
verify_signature env signature payload = compare_signatures signature (sign_event env payload)

abbrev pub is_ascii : List ℕ → Bool
is_ascii cs = all (λ c. ltb c 128) cs

codes_inj : (s t : String) → codes s ≡ codes t → s ≡ t
unfolding codes
codes_inj String.[] String.[] e = refl
codes_inj String.[] (String.◌∷◌ d t) e = absurd (ground arith)
codes_inj (String.◌∷◌ c s) String.[] e = absurd (ground arith)
codes_inj (String.◌∷◌ c s) (String.◌∷◌ d t) e =
    let heads : code c ≡ code d = ground arith in
    let tails : codes s ≡ codes t = ground arith in
    rw (Char-path c d heads, codes_inj s t tails) refl

equal_bytes_iff : (a b : List ℕ) → (equal_bytes a b ≡ true) ↔ (a ≡ b)
unfolding equal_bytes
equal_bytes_iff [] [] = ((λ h. refl), (λ h. refl))
equal_bytes_iff [] (b ∷ bs) = ground arith
equal_bytes_iff (a ∷ as_) [] = ground arith
equal_bytes_iff (a ∷ as_) (b ∷ bs) = ground (arith, equal_bytes_iff as_ bs)

utf8_inj : (xs ys : List ℕ) → is_ascii ys ≡ true → utf8 xs ≡ utf8 ys → xs ≡ ys
unfolding utf8
utf8_inj [] [] ascii e = refl
utf8_inj [] (y ∷ ys) ascii e = absurd (ground arith)
utf8_inj (x ∷ xs) [] ascii e = absurd (ground arith)
utf8_inj (x ∷ xs) (y ∷ ys) ascii e = ground (arith, utf8_inj xs ys)

-- Text of ASCII has a byte for each unit, and other text has more bytes than units.
utf8-length :
    (cs : List ℕ)
    → ((is_ascii cs ≡ true) × (length (utf8 cs) ≡ utf16_length cs))
      ⊎ ((is_ascii cs ≡ false) × (utf16_length cs < length (utf8 cs)))
unfolding utf8 utf16_length
utf8-length [] = inl (refl, refl)
utf8-length (c ∷ cs) = ground (arith, utf8-length cs)

compare_signatures_accepts :
    (signature expected : String)
    → is_ascii (codes expected) ≡ true
    → (compare_signatures signature expected ≡ verdict true) ↔ (signature ≡ expected)
unfolding compare_signatures timing_safe_equal
compare_signatures_accepts signature expected ascii =
    let bytes = equal_bytes_iff (utf8 (codes signature)) (utf8 (codes expected)) in
    (
      (λ h.
          codes_inj signature expected
            (utf8_inj (codes signature) (codes expected) ascii (bytes.0 (ground arith)))),
      (λ e. rw e (
          ground
            (arith, (equal_bytes_iff (utf8 (codes expected)) (utf8 (codes expected))).1 refl))),
    )

compare_signatures_throws :
    (signature expected : String)
    → is_ascii (codes expected) ≡ true
    → (compare_signatures signature expected ≡ range_error) ↔ (
        (utf16_length (codes signature) ≡ utf16_length (codes expected))
        × (is_ascii (codes signature) ≡ false))
unfolding compare_signatures timing_safe_equal
compare_signatures_throws signature expected ascii =
    ground (arith, utf8-length (codes signature), utf8-length (codes expected))

-- Where the payload's own signature is ASCII text, as a hexadecimal digest is, a signature is accepted
-- exactly if it is that one, and the check throws exactly for the text of the same length, in UTF-16
-- units, that is not ASCII.
pub verify_signature_lem :
    {J : Type 0} (env : Environment J) (signature : String) (payload : WebhookEvent J)
    → is_ascii (codes (sign_event env payload)) ≡ true
    → ((verify_signature env signature payload ≡ verdict true)
        ↔ (signature ≡ sign_event env payload))
      × ((verify_signature env signature payload ≡ range_error) ↔ (
          (utf16_length (codes signature) ≡ utf16_length (codes (sign_event env payload)))
          × (is_ascii (codes signature) ≡ false)))
unfolding verify_signature
verify_signature_lem env signature payload ascii = (
  compare_signatures_accepts signature (sign_event env payload) ascii,
  compare_signatures_throws signature (sign_event env payload) ascii,
)

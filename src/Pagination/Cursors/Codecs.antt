-- ===== src/Pagination/Cursors/Codecs.antt =====
-- The round trip of cursors.
use text.Mathlib.TextLemmas.{cons-append, nil-append}
use atraport_api.Prelude.{
  String, false, some, [], ◌∷◌, ◌≡◌, refl, ap, ◌∙◌, arith, ◌<>◌, split, is_char, truthy,
}
use atraport_api.Pagination.Cursors.{
  CursorData, Codec, IsCodec, has_dot, payload_of, encode_cursor, decode_cursor,
}

split_whole : (s : String) → has_dot s ≡ false → split "." s ≡ s ∷ []
unfolding split
split_whole String.[] h = refl
split_whole (String.◌∷◌ c s) h =
    let other : is_char c "." ≡ false = ground arith in
    rw (split_whole s (ground arith)) (rw other refl)

-- The text of a cursor, as the list of its characters begins.
cursor_text : (s : String) → "v1" <> ("." <> s) ≡ String.◌∷◌ "v" (String.◌∷◌ "1" (String.◌∷◌ "." s))
cursor_text s =
    cons-append "v" "1" ("." <> s)
    ∙ ap (λ r. String.◌∷◌ "v" r)
        (cons-append "1" "" ("." <> s)
          ∙ ap (λ r. String.◌∷◌ "1" r)
              (nil-append ("." <> s)
                ∙ cons-append "." "" s
                ∙ ap (λ r. String.◌∷◌ "." r) (nil-append s)))

split_cursor :
    (s : String)
    → has_dot s ≡ false
    → split "." (String.◌∷◌ "v" (String.◌∷◌ "1" (String.◌∷◌ "." s))) ≡ "v1" ∷ (s ∷ [])
unfolding split
split_cursor s h = rw (split_whole s h) refl

-- Where JSON and base64url give back what is written and base64url has no dot, a cursor that is encoded is decoded to
-- the sort value and the identifier that it was made of.
pub decode-encode_cursor :
    (codec : Codec)
    → IsCodec codec
    → (d : CursorData) → decode_cursor codec (encode_cursor codec d) ≡ some d
unfolding decode_cursor encode_cursor
decode-encode_cursor codec laws d =
    let text = codec.to_base64url (codec.stringify (payload_of d)) in
    rw (cursor_text text) (
      rw (split_cursor text (laws.no_dot (payload_of d)))
        (rw (laws.base64url_back (payload_of d)) (rw (laws.json_back (payload_of d)) refl)))

-- A cursor is not empty.
pub truthy-encode_cursor :
    (codec : Codec) (d : CursorData)
    → truthy (some (encode_cursor codec d)) ≡ some (encode_cursor codec d)
unfolding encode_cursor
truthy-encode_cursor codec d =
    rw (cursor_text (codec.to_base64url (codec.stringify (payload_of d)))) refl

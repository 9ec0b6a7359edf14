-- ===== src/RateLimit/Service/Frames.antt =====
-- A limit that is applied under one key changes nothing under another, and the keys of the scopes differ.
use Prim.Native.Char.{Char}
use text.Mathlib.TextLemmas.{cons-append}
use atraport_api.Prelude.{
  ℕ, String, Bool, true, false, ◌≡◌, refl, sym, ap, ◌∙◌, arith, eq_iff, is_char, ◌<>◌, Bool-cases,
  inl, inr,
}
use text.Mathlib.Text.{◌==◌}
use atraport_api.Prelude.JsMap
use atraport_api.RateLimit.Algorithms.{
  RateLimitAlgorithm, token_bucket, sliding_window, RateLimitPolicy, bucket_consume, window_consume,
}
use atraport_api.RateLimit.Service.{RateLimitScope, RateLimitService, apply, consume, scope_name}

consume-consume :
    (first second : RateLimitAlgorithm) (j k : String) (p q : RateLimitPolicy) (now : ℕ)
    (s : RateLimitService)
    → (j == k) ≡ false
    → (consume second k q now (consume first j p now s).1).0 ≡ (consume second k q now s).0
unfolding consume bucket_consume window_consume
consume-consume token_bucket token_bucket j k p q now s h =
    rw (JsMap.get-set j k _ s.token_buckets) (rw h refl)
consume-consume token_bucket sliding_window j k p q now s h = refl
consume-consume sliding_window token_bucket j k p q now s h = refl
consume-consume sliding_window sliding_window j k p q now s h =
    rw (JsMap.get-set j k _ s.sliding_windows) (rw h refl)

-- The limiters alone decide.
pub record SameLimiters (s t : RateLimitService) : Type 0 where
  pub buckets : s.token_buckets ≡ t.token_buckets
  pub windows : s.sliding_windows ≡ t.sliding_windows

pub consume-SameLimiters :
    (a : RateLimitAlgorithm) (k : String) (p : RateLimitPolicy) (now : ℕ) (s t : RateLimitService)
    → SameLimiters s t
    → (consume a k p now s).0 ≡ (consume a k p now t).0
unfolding consume
consume-SameLimiters token_bucket k p now s t same = rw same.buckets refl
consume-SameLimiters sliding_window k p now s t same = rw same.windows refl

apply-SameLimiters :
    (scope : RateLimitScope) (key : String) (p : RateLimitPolicy) (now : ℕ) (s : RateLimitService)
    → SameLimiters
        (apply scope key p now s).1
        (consume p.algorithm (scope_name scope <> (":" <> key)) p now s).1
unfolding apply
apply-SameLimiters scope key p now s = record { buckets = refl; windows = refl }

pub consume-apply :
    (scope : RateLimitScope) (key : String) (p : RateLimitPolicy) (a : RateLimitAlgorithm)
    (k : String) (q : RateLimitPolicy) (now : ℕ) (s : RateLimitService)
    → ((scope_name scope <> (":" <> key)) == k) ≡ false
    → (consume a k q now (apply scope key p now s).1).0 ≡ (consume a k q now s).0
consume-apply scope key p a k q now s h =
    consume-SameLimiters a k q now _ _ (apply-SameLimiters scope key p now s)
    ∙ consume-consume p.algorithm a (scope_name scope <> (":" <> key)) k p q now s h

config-consume :
    (a : RateLimitAlgorithm) (k : String) (p : RateLimitPolicy) (now : ℕ) (s : RateLimitService)
    → (consume a k p now s).1.config ≡ s.config
unfolding consume
config-consume token_bucket k p now s = refl
config-consume sliding_window k p now s = refl

pub config-apply :
    (scope : RateLimitScope) (key : String) (p : RateLimitPolicy) (now : ℕ) (s : RateLimitService)
    → (apply scope key p now s).1.config ≡ s.config
unfolding apply
config-apply scope key p now s =
    config-consume p.algorithm (scope_name scope <> (":" <> key)) p now s

abbrev begins : Char → String → Bool
begins c String.[] = false
begins c (String.◌∷◌ d s) = is_char d c

apart : (c : Char) (j k : String) → begins c j ≡ true → begins c k ≡ false → (j == k) ≡ false
apart c j k h no_such = elim (Bool-cases (j == k)) [
  | inl same ↦
      let equal : j ≡ k = ground (arith, eq_iff j k) in
      absurd (ground (arith, sym h ∙ ap (begins c) equal ∙ no_such))
  | inr other ↦ other
]

ip_key : (key : String) → begins "i" ("ip" <> (":" <> key)) ≡ true
ip_key key = ap (begins "i") (cons-append "i" "p" (":" <> key))

user_key : (c : Char) (key : String) → begins c ("user" <> (":" <> key)) ≡ is_char "u" c
user_key c key = ap (begins c) (cons-append "u" "ser" (":" <> key))

endpoint_begins : (c : Char) (key : String) → begins c ("endpoint" <> (":" <> key)) ≡ is_char "e" c
endpoint_begins c key = ap (begins c) (cons-append "e" "ndpoint" (":" <> key))

pub ip_user : (a b : String) → (("ip" <> (":" <> a)) == ("user" <> (":" <> b))) ≡ false
ip_user a b = apart "i" _ _ (ip_key a) (user_key "i" b)

pub ip_endpoint : (a b : String) → (("ip" <> (":" <> a)) == ("endpoint" <> (":" <> b))) ≡ false
ip_endpoint a b = apart "i" _ _ (ip_key a) (endpoint_begins "i" b)

pub user_endpoint : (a b : String) → (("user" <> (":" <> a)) == ("endpoint" <> (":" <> b))) ≡ false
user_endpoint a b = apart "u" _ _ (user_key "u" a) (endpoint_begins "u" b)

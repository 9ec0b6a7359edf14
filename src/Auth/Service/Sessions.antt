-- ===== src/Auth/Service/Sessions.antt =====
-- How long the tokens of src/auth/auth.service.ts are good for.
use atraport_api.Prelude.{
  ℕ, ◌*◌, String, true, false, Option, none, some, ◌≡◌, ◌⊎◌, refl, sym, ap, arith, eq_refl, nat_eq,
  truthy, Bool-cases, Option-cases, inl, inr,
}
use mathlib.Core.Option
use mathlib.Core.Path.{subst}
use atraport_api.Auth.Types.{
  User, TokenPair, JwtPayload, AuthError, Outcome, fails, gives, to_auth_user,
}
use atraport_api.Auth.Storage.{Database, DatabaseLaws, Crypto, CryptoLaws, Drawn, changed}
use atraport_api.Auth.Service.{
  with_refresh_hash, generate_access_token, generate_refresh_token, login, refreshable, rotate,
  refresh_tokens, revocable, revoke, logout, validate,
}

module _ {S : Type 0} (db : Database S) (laws : DatabaseLaws db) (crypto : Crypto) where
  -- The user's stored hash is a refresh token's.
  abbrev pub IsGoodFor : String → String → S → Type 0
  IsGoodFor user_id token s =
      (u : User) × (stored : String) × (db.user_by_id user_id s ≡ some u)
      × (truthy u.refresh_token_hash ≡ some stored)
      × (crypto.compare token stored ≡ true)

  refreshable-cases :
      (token : String) (o : Option User)
      → ((u : User) × (stored : String) × (o ≡ some u)
          × (truthy u.refresh_token_hash ≡ some stored)
          × (crypto.compare token stored ≡ true)
          × (refreshable db crypto token o ≡ some u))
        ⊎ (refreshable db crypto token o ≡ none)
  unfolding refreshable
  refreshable-cases token none = inr refl
  refreshable-cases token (some u) = elim (Option-cases (truthy u.refresh_token_hash)) [
    | inl missing ↦ inr (rw missing refl)
    | inr (stored, here) ↦ elim (Bool-cases (crypto.compare token stored)) [
      | inl same ↦ inl (u, stored, refl, here, same, rw here (rw same refl))
      | inr other ↦ inr (rw here (rw other refl))
    ]
  ]

  rotate-gives :
      (u : User) (drawn : Drawn) (s : S)
      → (pair : TokenPair) × ((rotate db crypto (some u) drawn s).0 ≡ gives pair)
        × (pair.refresh_token ≡ drawn.token)
  unfolding rotate login generate_refresh_token
  rotate-gives u drawn s = (
    record {
      access_token = generate_access_token db crypto (to_auth_user u) drawn;
      refresh_token = drawn.token;
    },
    refl,
    refl,
  )

  rotate-none :
      (drawn : Drawn) (s : S) → rotate db crypto none drawn s ≡ (fails AuthError.unauthorized, s)
  unfolding rotate
  rotate-none drawn s = refl

  good_refused :
      (user_id token : String) (s : S)
      → IsGoodFor user_id token s
      → refreshable db crypto token (db.user_by_id user_id s) ≡ none
      → ⊥
  unfolding refreshable
  good_refused user_id token s (u, stored, here, hashed, same) =
      rw (here, hashed, same) (λ h. ground arith)

  -- A refresh gives a pair with the new refresh token exactly if the user is stored with a hash of the
  -- token presented, whatever the user's status is; otherwise it is refused and nothing changes.
  pub refresh_tokens_lem :
      (user_id token : String) (drawn : Drawn) (s : S)
      → (IsGoodFor user_id token s
          × (pair : TokenPair) × ((refresh_tokens db crypto user_id token drawn s).0 ≡ gives pair)
          × (pair.refresh_token ≡ drawn.token))
        ⊎ ((IsGoodFor user_id token s → ⊥)
            × (refresh_tokens db crypto user_id token drawn s ≡ (fails AuthError.unauthorized, s)))
  unfolding refresh_tokens
  refresh_tokens_lem user_id token drawn s =
      elim (refreshable-cases token (db.user_by_id user_id s)) [
        | inl (u, stored, here, hashed, same, found) ↦
            let (pair, gave, new) = rotate-gives u drawn s in
            inl ((u, stored, here, hashed, same), pair, rw found gave, new)
        | inr refused ↦
            inr (
              (λ good. good_refused user_id token s good refused),
              rw refused (rotate-none drawn s),
            )
      ]

  user-rotate :
      (u : User) (drawn : Drawn) (s : S)
      → db.user_by_id u.id s ≡ some u
      → db.user_by_id u.id (rotate db crypto (some u) drawn s).1
        ≡ some (with_refresh_hash db crypto (some (crypto.hash drawn.salt drawn.token)) u)
  unfolding rotate login generate_refresh_token
  user-rotate u drawn s here =
      rw (laws.user_by_id-update, eq_refl u.id)
        (rw (laws.user_by_id-update, eq_refl u.id) (rw here refl))

  -- `logout`, whatever the access token is.
  logged_out :
      (user_id token : String) (o : Option User)
      → refreshable db crypto token (changed (with_refresh_hash db crypto none) o) ≡ none
  unfolding refreshable
  logged_out user_id token none = refl
  logged_out user_id token (some u) = refl

  revoked_after :
      (jti : String) (t : ℕ) (s : S)
      → db.is_revoked jti (Option.get_or (db.add_revoked jti t s) s) ≡ true
  revoked_after jti t s = elim (Option-cases (db.add_revoked jti t s)) [
    | inl there ↦ rw there (laws.add_revoked-none jti t s there)
    | inr (s', added) ↦ rw added (laws.is_revoked-add_revoked jti t s s' added)
  ]

  revoked_or_not :
      (p : JwtPayload)
      → (revocable db crypto (some p) ≡ none)
        ⊎ ((jti : String) × (t : ℕ) × (truthy p.jti ≡ some jti)
            × (revocable db crypto (some p) ≡ some (jti, t)))
  unfolding revocable
  revoked_or_not p = elim (Option-cases (truthy p.jti)) [
    | inl unnamed ↦ inl (rw unnamed refl)
    | inr (jti, named) ↦ elim (Option-cases p.exp) [
      | inl endless ↦ inl (rw (named, endless) refl)
      | inr (t, expires) ↦ elim (Bool-cases (nat_eq t 0)) [
        | inl zero ↦ inl (rw (named, expires, zero) refl)
        | inr later ↦ inr (jti, t, named, rw (named, expires, later) refl)
      ]
    ]
  ]

  -- After a logout no refresh token of the user is accepted, and the access token that was handed in, if
  -- it can be decoded, has no identifier or no expiry or is refused when it is presented.
  pub logout_lem :
      (user_id access_token token : String) (drawn : Drawn) (p : JwtPayload) (s : S)
      → crypto.decode access_token ≡ some p
      → let after = logout db crypto user_id access_token s in
        (refresh_tokens db crypto user_id token drawn after ≡ (fails AuthError.unauthorized, after))
        × ((revocable db crypto (some p) ≡ none)
            ⊎ (validate db crypto p after ≡ fails AuthError.unauthorized))
  unfolding logout refresh_tokens validate revoke
  logout_lem user_id access_token token drawn p s decoded =
      let s1 =
        Option.get_or (revoke db crypto (revocable db crypto (crypto.decode access_token)) s) s in
      (
        rw (laws.user_by_id-update, eq_refl user_id)
            (rw (logged_out user_id token (db.user_by_id user_id s1))
              (rotate-none drawn (logout db crypto user_id access_token s))),
        elim (revoked_or_not p) [
          | inl nothing ↦ inl nothing
          | inr (jti, t, named, told) ↦ inr (
              rw (named, laws.is_revoked-update)
                (rw (decoded, told) (rw (revoked_after jti (t * 1000) s) refl)))
        ],
      )

  -- The token drawn is good for the user, and what bcrypt tells from it is refused.
  abbrev pub HasRotated : User → Drawn → S → Type 0
  HasRotated u drawn after =
      IsGoodFor u.id drawn.token after
      × ((other : String) (later : Drawn)
          → crypto.compare other (crypto.hash drawn.salt drawn.token) ≡ false
          → refresh_tokens db crypto u.id other later after ≡ (fails AuthError.unauthorized, after))

  refused_other :
      (other : String) (u : User) (drawn : Drawn)
      → CryptoLaws crypto
      → crypto.compare other (crypto.hash drawn.salt drawn.token) ≡ false
      → refreshable db crypto other
          (some (with_refresh_hash db crypto (some (crypto.hash drawn.salt drawn.token)) u))
        ≡ none
  unfolding refreshable
  refused_other other u drawn crypto_laws differs =
      rw (crypto_laws.hash_truthy drawn.salt drawn.token) (rw differs refl)

  rotated :
      (u : User) (drawn : Drawn) (s : S)
      → CryptoLaws crypto
      → db.user_by_id u.id s ≡ some u
      → HasRotated u drawn (rotate db crypto (some u) drawn s).1
  unfolding refresh_tokens
  rotated u drawn s crypto_laws here =
      let stored = crypto.hash drawn.salt drawn.token in
      let after = (rotate db crypto (some u) drawn s).1 in
      let e : db.user_by_id u.id after ≡ some (with_refresh_hash db crypto (some stored) u) =
        user-rotate u drawn s here in
      (
        (
          with_refresh_hash db crypto (some stored) u,
          stored,
          e,
          crypto_laws.hash_truthy drawn.salt drawn.token,
          crypto_laws.compare-hash drawn.salt drawn.token,
        ),
        λ other later differs.
            rw e (rw (refused_other other u drawn crypto_laws differs) (rotate-none later after)),
      )

  refresh-HasRotated :
      (u : User) (token : String) (drawn : Drawn) (s : S)
      → CryptoLaws crypto
      → db.user_by_id u.id s ≡ some u
      → IsGoodFor u.id token s
      → HasRotated u drawn (refresh_tokens db crypto u.id token drawn s).1
  unfolding refresh_tokens
  refresh-HasRotated u token drawn s crypto_laws here good =
      elim (refreshable-cases token (db.user_by_id u.id s)) [
        | inr refused ↦ absurd (good_refused u.id token s good refused)
        | inl (u', stored, there, hashed, same, found) ↦
            let it : u ≡ u' = ground (arith, here, there) in
            let answer : refresh_tokens db crypto u.id token drawn s
                ≡ rotate db crypto (some u) drawn s =
              rw found (ap (λ (v : User). rotate db crypto (some v) drawn s) (sym it)) in
            subst (λ (x : Outcome TokenPair × S). HasRotated u drawn x.1) (sym answer)
              (rotated u drawn s crypto_laws here)
      ]

  -- Where a refresh succeeds for a user that is stored under that id, in the state that it leaves the
  -- new refresh token is good for the user, and any token that bcrypt tells from the new one is refused.
  pub refresh_rotates :
      (u : User) (token other : String) (drawn later : Drawn) (s : S)
      → CryptoLaws crypto
      → db.user_by_id u.id s ≡ some u
      → IsGoodFor u.id token s
      → crypto.compare other (crypto.hash drawn.salt drawn.token) ≡ false
      → let after = (refresh_tokens db crypto u.id token drawn s).1 in
        IsGoodFor u.id drawn.token after
        × (refresh_tokens db crypto u.id other later after ≡ (fails AuthError.unauthorized, after))
  refresh_rotates u token other drawn later s crypto_laws here good differs =
      let (new_good, refuses) = refresh-HasRotated u token drawn s crypto_laws here good in
      (new_good, refuses other later differs)

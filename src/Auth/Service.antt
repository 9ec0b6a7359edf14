-- ===== src/Auth/Service.antt =====
-- src/auth/auth.service.ts, with token-revocation.service.ts, `validate` of strategies/jwt.strategy.ts and
-- guards/roles.guard.ts. Random values are arguments.
pub mod Sessions
use atraport_api.Prelude.{
  ℕ, ◌+◌, ◌*◌, String, Bool, true, false, not, ◌&&◌, ◌||◌, Option, none, some, List, [], ◌∷◌, any,
  nat_eq, ◌<>◌, truthy, if◌then◌else◌,
}
use mathlib.Core.Option
use Prim.Native.String
use text.Mathlib.Text.{◌==◌}
use atraport_api.Auth.Types
use atraport_api.Auth.Types.{
  UserRole, UserStatus, User, AuthUser, TokenPair, RegisterInput, GoogleClaims, JwtPayload,
  AuthError, Outcome, fails, gives, is_active, to_auth_user,
}
use atraport_api.Auth.Storage.{Database, Crypto, Drawn}

abbrev pub access_token_ttl : ℕ
access_token_ttl = 15 * 60

abbrev pub both_texts : Option String → Option String → Bool → Option (String × String)
both_texts (some a) (some b) true = some (a, b)
both_texts _ _ _ = none

module _ {S : Type 0} (db : Database S) (crypto : Crypto) where
  new_user : RegisterInput → String → String → User
  new_user dto id salt = record {
    id = id;
    email = dto.email;
    password_hash = crypto.hash salt dto.password;
    social_provider = none;
    social_provider_id = none;
    role = Option.get_or dto.role UserRole.user;
    status = UserStatus.active;
    refresh_token_hash = none;
    api_key_hash = none;
    api_key_prefix = none;
  }

  register_found : RegisterInput → String → String → Option User → S → Outcome AuthUser × S
  register_found dto id salt (some existing) s = (fails AuthError.conflict, s)
  register_found dto id salt none s =
      let created = new_user dto id salt in (gives (to_auth_user created), db.insert created s)

  unfoldable pub register : RegisterInput → String → String → S → Outcome AuthUser × S
  unfolding register_found new_user
  register dto id salt s = register_found dto id salt (db.user_by_email dto.email s) s

  credentials_of : String → Option User → Option AuthUser
  credentials_of password none = none
  credentials_of password (some u) =
      if is_active u.status && crypto.compare password u.password_hash
      then some (to_auth_user u)
      else none

  unfoldable pub validate_credentials : String → String → S → Option AuthUser
  unfolding credentials_of
  validate_credentials email password s = credentials_of password (db.user_by_email email s)

  unfoldable pub generate_access_token : AuthUser → Drawn → String
  generate_access_token u drawn =
      crypto.sign
        (record { sub = u.id; email = u.email; role = u.role; jti = some drawn.jti; exp = none })
        access_token_ttl

  abbrev pub with_refresh_hash : Option String → User → User
  with_refresh_hash h u = record u { refresh_token_hash = h }

  unfoldable pub generate_refresh_token : AuthUser → Drawn → S → String × S
  generate_refresh_token u drawn s = (
    drawn.token,
    db.update u.id (with_refresh_hash (some (crypto.hash drawn.salt drawn.token))) s,
  )

  unfoldable pub login : AuthUser → Drawn → S → TokenPair × S
  login u drawn s =
      let (refresh_token, s') = generate_refresh_token u drawn s in
      (record { access_token = generate_access_token u drawn; refresh_token = refresh_token }, s')

  -- `ticket` is what Google's client found in the token: nothing where the check threw.
  verified_claims : Option GoogleClaims → Option (String × String)
  verified_claims none = none
  verified_claims (some c) = both_texts (truthy c.sub) (truthy c.email) c.email_verified

  finish_login : User → Drawn → S → Outcome TokenPair × S
  finish_login u drawn s =
      if is_active u.status
      then (let (pair, s') = login (to_auth_user u) drawn s in (gives pair, s'))
      else (fails AuthError.unauthorized, s)

  -- No user has the social id: the user of the address is linked to it, or one is made.
  link_or_create : String → String → String → Drawn → Option User → S → Outcome TokenPair × S
  link_or_create sub email id drawn none s =
      let created : User = record {
        id = id;
        email = email;
        password_hash = crypto.hash drawn.salt drawn.password;
        social_provider = some "google";
        social_provider_id = some sub;
        role = UserRole.user;
        status = UserStatus.active;
        refresh_token_hash = none;
        api_key_hash = none;
        api_key_prefix = none;
      } in
      finish_login created drawn (db.insert created s)
  link_or_create sub email id drawn (some u) s =
      if is_active u.status
      then finish_login u drawn (
          db.update u.id
            (λ u'. record u' { social_provider = some "google"; social_provider_id = some sub }) s)
      else (fails AuthError.unauthorized, s)

  social_user : String → String → String → Drawn → Option User → S → Outcome TokenPair × S
  social_user sub email id drawn (some u) s = finish_login u drawn s
  social_user sub email id drawn none s =
      link_or_create sub email id drawn (db.user_by_email email s) s

  social_claims : Option (String × String) → String → Drawn → S → Outcome TokenPair × S
  social_claims none id drawn s = (fails AuthError.unauthorized, s)
  social_claims (some (sub, email)) id drawn s =
      social_user sub email id drawn (db.user_by_social "google" sub s) s

  -- The provider must be Google and its client configured.
  unfoldable pub social_login :
      Bool → Bool → Option GoogleClaims → String → Drawn → S → Outcome TokenPair × S
  unfolding social_claims social_user link_or_create finish_login verified_claims
  social_login is_google is_configured ticket id drawn s =
      if is_google && is_configured
      then social_claims (verified_claims ticket) id drawn s
      else (fails AuthError.unauthorized, s)

  -- The guards of `refreshTokens`, past which the user is known.
  matching_user : String → Option String → User → Option User
  matching_user token none u = none
  matching_user token (some stored) u = if crypto.compare token stored then some u else none

  unfoldable pub refreshable : String → Option User → Option User
  unfolding matching_user
  refreshable token none = none
  refreshable token (some u) = matching_user token (truthy u.refresh_token_hash) u

  unfoldable pub rotate : Option User → Drawn → S → Outcome TokenPair × S
  rotate none drawn s = (fails AuthError.unauthorized, s)
  rotate (some u) drawn s =
      let (pair, s') = login (to_auth_user u) drawn (db.update u.id (with_refresh_hash none) s) in
      (gives pair, s')

  unfoldable pub refresh_tokens : String → String → Drawn → S → Outcome TokenPair × S
  refresh_tokens user_id token drawn s =
      rotate (refreshable token (db.user_by_id user_id s)) drawn s

  -- `decoded?.jti && decoded?.exp`
  both : Option String → Option ℕ → Option (String × ℕ)
  both (some jti) (some t) = if nat_eq t 0 then none else some (jti, t)
  both _ _ = none

  unfoldable pub revocable : Option JwtPayload → Option (String × ℕ)
  unfolding both
  revocable none = none
  revocable (some p) = both (truthy p.jti) p.exp

  -- `revoke`: an exception where the row is there already.
  unfoldable pub revoke : Option (String × ℕ) → S → Option S
  revoke none s = some s
  revoke (some (jti, t)) s = db.add_revoked jti (t * 1000) s

  unfoldable pub logout : String → String → S → S
  logout user_id access_token s =
      db.update user_id (with_refresh_hash none)
        (Option.get_or (revoke (revocable (crypto.decode access_token)) s) s)

  revoked_or : Option S → S → Outcome {0} Unit × S
  revoked_or none s = (fails AuthError.unauthorized, s)
  revoked_or (some s') s = (gives tt, s')

  unfoldable pub revoke_token : String → S → Outcome {0} Unit × S
  unfolding revoked_or
  revoke_token token s = revoked_or (revoke (revocable (crypto.decode token)) s) s

  -- `rawKey.slice(0, 10)`
  unfoldable pub key_prefix : String → String
  key_prefix key = String.slice key 0 10

  api_key_for : String → String → String → Option User → S → Outcome (String × String) × S
  api_key_for user_id drawn salt none s = (fails AuthError.not_found, s)
  api_key_for user_id drawn salt (some u) s =
      let raw_key = "ak_" <> drawn in
      let prefix = key_prefix raw_key in
      (
        gives (raw_key, prefix),
        db.update user_id
            (λ u'. record u' {
              api_key_hash = some (crypto.hash salt raw_key);
              api_key_prefix = some prefix;
            })
            s,
      )

  unfoldable pub generate_api_key : String → String → String → S → Outcome (String × String) × S
  unfolding api_key_for
  generate_api_key user_id drawn salt s = api_key_for user_id drawn salt (db.user_by_id user_id s) s

  key_owner : String → Option String → User → Option AuthUser
  key_owner key none u = none
  key_owner key (some stored) u = if crypto.compare key stored then some (to_auth_user u) else none

  owner_found : String → Option User → Option AuthUser
  unfolding key_owner
  owner_found key none = none
  owner_found key (some u) = key_owner key (truthy u.api_key_hash) u

  unfoldable pub validate_api_key : String → S → Option AuthUser
  unfolding owner_found
  validate_api_key key s = owner_found key (db.active_user_by_prefix (key_prefix key) s)

  abbrev pub revoked_jti : Option String → S → Bool
  revoked_jti none s = false
  revoked_jti (some jti) s = db.is_revoked jti s

  -- `validate` of the JWT strategy, for a token whose signature and time have been checked.
  unfoldable pub validate : JwtPayload → S → Outcome AuthUser
  validate p s =
      if revoked_jti (truthy p.jti) s
      then fails AuthError.unauthorized
      else gives (record { id = p.sub; email = p.email; role = p.role })

  unfoldable pub purge_expired : ℕ → S → S
  purge_expired now s = db.purge_revoked now s

-- `canActivate` of the roles guard: the roles asked for, where there is such a decorator, and the role of
-- the request's user, if it has one. False is its `ForbiddenException`.
abbrev pub same_role : UserRole → UserRole → Bool
same_role UserRole.admin UserRole.admin = true
same_role UserRole.user UserRole.user = true
same_role UserRole.readonly UserRole.readonly = true
same_role _ _ = false

unfoldable pub has_role : List UserRole → Option UserRole → Bool
has_role required none = false
has_role required (some role) = any (λ r. same_role r role) required

unfoldable pub can_activate : Option (List UserRole) → Option UserRole → Bool
can_activate none role = true
can_activate (some []) role = true
can_activate (some (r ∷ rs)) role = has_role (r ∷ rs) role

-- ===== src/Auth/Types.antt =====
-- src/auth/entities/user.entity.ts, and the values of src/auth/auth.service.ts.
use atraport_api.Prelude.{ℕ, String, Bool, true, false, Option}

pub data UserRole : Type 0 where
  admin user readonly : UserRole

pub data UserStatus : Type 0 where
  active inactive suspended : UserStatus

pub record User : Type 0 where
  pub id : String
  pub email : String
  pub password_hash : String
  pub social_provider : Option String
  pub social_provider_id : Option String
  pub role : UserRole
  pub status : UserStatus
  pub refresh_token_hash : Option String
  pub api_key_hash : Option String
  pub api_key_prefix : Option String

pub record AuthUser : Type 0 where
  pub id : String
  pub email : String
  pub role : UserRole

pub record TokenPair : Type 0 where
  pub access_token : String
  pub refresh_token : String

pub record RegisterInput : Type 0 where
  pub email : String
  pub password : String
  pub role : Option UserRole

-- What a Google ID token claims.
pub record GoogleClaims : Type 0 where
  pub sub : Option String
  pub email : Option String
  pub email_verified : Bool

-- The claims of an access token; `exp` is in seconds.
pub record JwtPayload : Type 0 where
  pub sub : String
  pub email : String
  pub role : UserRole
  pub jti : Option String
  pub exp : Option ℕ

pub data AuthError : Type 0 where
  conflict unauthorized not_found : AuthError

pub data Outcome {ℓ} (A : Type ℓ) : Type ℓ where
  fails : AuthError → Outcome A
  gives : A → Outcome A

abbrev pub is_active : UserStatus → Bool
is_active active = true
is_active _ = false

abbrev pub to_auth_user : User → AuthUser
to_auth_user u = record { id = u.id; email = u.email; role = u.role }

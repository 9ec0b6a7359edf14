-- ===== src/Auth/Storage.antt =====
-- What src/auth asks of the database, of bcrypt and of the JWT library: interfaces over the database's
-- state `S`, with the documented behaviour that the properties rely on.
use atraport_api.Prelude.{ℕ, String, Bool, true, Option, none, some, ◌≡◌, truthy, if◌then◌else◌}
use text.Mathlib.Text.{◌==◌}
use atraport_api.Auth.Types.{User, JwtPayload}

-- `update` sets columns of the row with that id. `add_revoked` inserts a row, unless its `jti`, which is
-- unique, is there: then it throws.
pub record Database (S : Type 0) : Type 0 where
  pub user_by_id : String → S → Option User
  pub user_by_email : String → S → Option User
  pub user_by_social : String → String → S → Option User
  pub active_user_by_prefix : String → S → Option User
  pub update : String → (User → User) → S → S
  pub insert : User → S → S
  pub is_revoked : String → S → Bool
  pub add_revoked : String → ℕ → S → Option S
  pub purge_revoked : ℕ → S → S

abbrev pub changed : (User → User) → Option User → Option User
changed f none = none
changed f (some u) = some (f u)

pub record DatabaseLaws {S : Type 0} (db : Database S) : Type 0 where
  pub user_by_id-update :
      (id other : String) (f : User → User) (s : S)
      → db.user_by_id other (db.update id f s)
        ≡ (if id == other then changed f (db.user_by_id other s) else db.user_by_id other s)
  pub user_by_id-add_revoked :
      (jti id : String) (t : ℕ) (s s' : S)
      → db.add_revoked jti t s ≡ some s'
      → db.user_by_id id s' ≡ db.user_by_id id s
  pub is_revoked-update :
      (id jti : String) (f : User → User) (s : S)
      → db.is_revoked jti (db.update id f s) ≡ db.is_revoked jti s
  pub is_revoked-add_revoked :
      (jti : String) (t : ℕ) (s s' : S)
      → db.add_revoked jti t s ≡ some s'
      → db.is_revoked jti s' ≡ true
  pub add_revoked-none :
      (jti : String) (t : ℕ) (s : S) → db.add_revoked jti t s ≡ none → db.is_revoked jti s ≡ true

-- `hash` takes the salt that bcrypt draws. `decode` does not check the signature; `none` is a token that
-- is malformed.
pub record Crypto : Type 0 where
  pub hash : String → String → String
  pub compare : String → String → Bool
  pub sign : JwtPayload → ℕ → String
  pub decode : String → Option JwtPayload

-- What is drawn at random: for a pair of tokens, and the password of a user that Google vouches for.
pub record Drawn : Type 0 where
  pub password : String
  pub jti : String
  pub token : String
  pub salt : String

-- bcrypt recognises what it hashed, and its hashes are not empty.
pub record CryptoLaws (crypto : Crypto) : Type 0 where
  pub compare-hash : (salt text : String) → crypto.compare text (crypto.hash salt text) ≡ true
  pub hash_truthy :
      (salt text : String) → truthy (some (crypto.hash salt text)) ≡ some (crypto.hash salt text)

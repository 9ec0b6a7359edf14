-- ===== src/Tests/AuthRuns.antt =====
-- src/auth: a database in memory that has the documented behaviour, and runs of the sessions over it.
use atraport_api.Prelude.{
  ℕ, String, Bool, true, false, Option, none, some, [], ◌∷◌, ◌≡◌, refl, ◌⊎◌, arith, eq_refl, eq_iff,
  find, opt_eq, ◌&&◌, leb, if◌then◌else◌, Bool-cases, inl, inr,
}
use text.Mathlib.Text.{◌==◌}
use atraport_api.Prelude.JsMap
use atraport_api.Prelude.JsMap.{JsMap, get-set}
use atraport_api.Auth.Types.{
  User, UserRole, UserStatus, TokenPair, JwtPayload, AuthError, fails, gives, is_active,
}
use atraport_api.Auth.Storage.{Database, DatabaseLaws, Crypto, CryptoLaws, Drawn, changed}
use atraport_api.Auth.Service.{refresh_tokens, revocable, logout, validate}
use atraport_api.Auth.Service.Sessions.{IsGoodFor, refresh_tokens_lem, refresh_rotates, logout_lem}

record Tables : Type 0 where
  users : JsMap User
  revoked : JsMap ℕ

set_changed : String → (User → User) → Option User → JsMap User → JsMap User
set_changed id f none users = users
set_changed id f (some u) users = JsMap.set id (f u) users

add_new : String → ℕ → Option ℕ → Tables → Option Tables
add_new jti t (some there) s = none
add_new jti t none s = some (record s { revoked = JsMap.set jti t s.revoked })

is_there : Option ℕ → Bool
is_there none = false
is_there (some t) = true

abbrev tables_db : Database Tables
tables_db = record {
  user_by_id = λ id s. JsMap.get id s.users;
  user_by_email = λ email s. find (λ (u : User). u.email == email) (JsMap.values s.users);
  user_by_social = λ provider sub s.
      find (λ (u : User). opt_eq u.social_provider_id (some sub)) (JsMap.values s.users);
  active_user_by_prefix = λ prefix s.
      find (λ (u : User). opt_eq u.api_key_prefix (some prefix) && is_active u.status)
        (JsMap.values s.users);
  update = λ id f s. record s { users = set_changed id f (JsMap.get id s.users) s.users };
  insert = λ u s. record s { users = JsMap.set u.id u s.users };
  is_revoked = λ jti s. is_there (JsMap.get jti s.revoked);
  add_revoked = λ jti t s. add_new jti t (JsMap.get jti s.revoked) s;
  purge_revoked = λ now s. record s { revoked = JsMap.retain (λ jti t. leb now t) s.revoked };
}

get-set_changed :
    (id other : String) (f : User → User) (o : Option User) (users : JsMap User)
    → JsMap.get id users ≡ o
    → JsMap.get other (set_changed id f o users)
      ≡ (if id == other then changed f (JsMap.get other users) else JsMap.get other users)
unfolding set_changed
get-set_changed id other f none users e = elim (Bool-cases (id == other)) [
  | inl same ↦ rw same (rw (← (eq_iff id other).0 same) (rw e refl))
  | inr differs ↦ rw differs refl
]
get-set_changed id other f (some u) users e = elim (Bool-cases (id == other)) [
  | inl same ↦ rw (get-set, same) (rw (← (eq_iff id other).0 same) (rw e refl))
  | inr differs ↦ rw (get-set, differs) refl
]

users-add_new :
    (jti : String) (t : ℕ) (o : Option ℕ) (s s' : Tables)
    → add_new jti t o s ≡ some s'
    → s'.users ≡ s.users
unfolding add_new
users-add_new jti t none s s' h = ground arith
users-add_new jti t (some there) s s' h = absurd (ground arith)

there-add_new :
    (jti : String) (t : ℕ) (o : Option ℕ) (s s' : Tables)
    → add_new jti t o s ≡ some s'
    → is_there (JsMap.get jti s'.revoked) ≡ true
unfolding add_new is_there
there-add_new jti t none s s' h =
    let same : s'.revoked ≡ JsMap.set jti t s.revoked = ground arith in
    rw same (rw (get-set, eq_refl jti) refl)
there-add_new jti t (some there) s s' h = absurd (ground arith)

there-none :
    (jti : String) (t : ℕ) (o : Option ℕ) (s : Tables)
    → add_new jti t o s ≡ none
    → is_there o ≡ true
unfolding add_new is_there
there-none jti t none s h = absurd (ground arith)
there-none jti t (some there) s h = refl

tables_laws : DatabaseLaws tables_db
tables_laws = record {
  user_by_id-update =
      λ id other f s. get-set_changed id other f (JsMap.get id s.users) s.users refl;
  user_by_id-add_revoked =
      λ jti id t s s' h. rw (users-add_new jti t (JsMap.get jti s.revoked) s s' h) refl;
  is_revoked-update = λ id jti f s. refl;
  is_revoked-add_revoked = λ jti t s s' h. there-add_new jti t (JsMap.get jti s.revoked) s s' h;
  add_revoked-none = λ jti t s h. there-none jti t (JsMap.get jti s.revoked) s h;
}

abbrev crypto : Crypto
crypto = record {
  hash = λ salt text. String.◌∷◌ "#" text;
  compare = λ text hashed. hashed == String.◌∷◌ "#" text;
  sign = λ payload ttl. payload.sub;
  decode = λ token. some (record {
    sub = "ann";
    email = "a@x";
    role = UserRole.user;
    jti = some token;
    exp = some 900;
  });
}

crypto_laws : CryptoLaws crypto
crypto_laws = record {
  compare-hash = λ salt text. eq_refl (String.◌∷◌ "#" text);
  hash_truthy = λ salt text. refl;
}

abbrev ann : User
ann = record {
  id = "ann";
  email = "a@x";
  password_hash = "#pw";
  social_provider = none;
  social_provider_id = none;
  role = UserRole.user;
  status = UserStatus.suspended;
  refresh_token_hash = some "#t1";
  api_key_hash = none;
  api_key_prefix = none;
}

abbrev tables : Tables
tables = record { users = ("ann", ann) ∷ []; revoked = [] }

abbrev drawn : Drawn
drawn = record { password = "p"; jti = "j2"; token = "t2"; salt = "s" }

refresh_tokens_lem_example :
    (IsGoodFor tables_db tables_laws crypto "ann" "t1" tables
      × (pair : TokenPair) × ((refresh_tokens tables_db crypto "ann" "t1" drawn tables).0
          ≡ gives pair)
      × (pair.refresh_token ≡ "t2"))
    ⊎ ((IsGoodFor tables_db tables_laws crypto "ann" "t1" tables → ⊥)
        × (refresh_tokens tables_db crypto "ann" "t1" drawn tables
            ≡ (fails AuthError.unauthorized, tables)))
refresh_tokens_lem_example = refresh_tokens_lem tables_db tables_laws crypto "ann" "t1" drawn tables

refresh_rotates_example :
    let after = (refresh_tokens tables_db crypto "ann" "t1" drawn tables).1 in
    IsGoodFor tables_db tables_laws crypto "ann" "t2" after
    × (refresh_tokens tables_db crypto "ann" "t1" drawn after
        ≡ (fails AuthError.unauthorized, after))
unfolding JsMap.get
refresh_rotates_example =
    refresh_rotates tables_db tables_laws crypto ann "t1" "t1" drawn drawn tables crypto_laws refl
      (ann, "#t1", refl, refl, refl) refl

abbrev claims : JwtPayload
claims = record {
  sub = "ann";
  email = "a@x";
  role = UserRole.user;
  jti = some "j1";
  exp = some 900;
}

logout_lem_example :
    let after = logout tables_db crypto "ann" "j1" tables in
    (refresh_tokens tables_db crypto "ann" "t1" drawn after ≡ (fails AuthError.unauthorized, after))
    × ((revocable tables_db crypto (some claims) ≡ none)
        ⊎ (validate tables_db crypto claims after ≡ fails AuthError.unauthorized))
logout_lem_example =
    logout_lem tables_db tables_laws crypto "ann" "j1" "t1" drawn claims tables refl

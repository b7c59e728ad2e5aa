-- ===== src/Server/Auth/Account.antt =====
-- Registering and logging in, apps/server/src/api/auth.rs.
use free_box.Prelude.{
  ℕ, ◌+◌, ◌≤◌, ◌<◌, ◌≡◌, refl, true, false, none, some, List, [], ◌∷◌, ◌++◌, length, bytes_eq,
  bytes_eq_refl, ltb, arith,
}
use free_box.Outcome.{ok}
use free_box.Server.Files.Keys.{Text, codes}
use free_box.Crypto.Curves.{Ed25519}
use free_box.Crypto.Keys.{PrekeyBundle}
use free_box.Server.Auth.{
  Services, User, RefreshToken, Accounts, Config, RegisterRequest, new_claims, has_token, is_taken,
  find_user, validate_username, validate_email, validate_prekey_bundle, max_hash_len,
  max_bundle_size,
}
use free_box.Server.Auth.Handlers.{issued, with_token, with_account, register, login, require_auth}
use free_box.Server.Auth.Session.{calm, issue_token_pair_lem, require_auth_lem}

le→ltb : (m n : ℕ) → m ≤ n → ltb n m ≡ false
le→ltb m n h = ground arith

find_user-append :
    (u : User) (us : List User)
    → is_taken u.id u.username u.email us ≡ false
    → u.deleted_at ≡ none
    → find_user u.username (us ++ u ∷ []) ≡ some u
unfolding find_user
find_user-append u [] h k = rw (bytes_eq_refl u.username, k) refl
find_user-append u (v ∷ us) h k = ground (arith, find_user-append u us)

has_token-append :
    (new : Text) (r : RefreshToken) (rs : List RefreshToken)
    → has_token new rs ≡ false
    → bytes_eq r.token new ≡ false
    → has_token new (rs ++ r ∷ []) ≡ false
has_token-append new r [] h k = ground (arith)
has_token-append new r (q ∷ rs) h k = ground (arith, has_token-append new r rs)

-- The row that a registration stores.
abbrev pub registered : ℕ → RegisterRequest → Text → User
registered id req server_hash = record {
  id = id;
  username = req.username;
  email = req.email;
  password_hash = some server_hash;
  argon2_salt = some req.argon2_salt;
  deleted_at = none;
}

-- What the validations of `register` ask of a request.
pub record IsValid (ed : Ed25519) (req : RegisterRequest) (bundle : PrekeyBundle) : Type 0 where
  pub username : validate_username req.username ≡ ok tt
  pub email : validate_email req.email ≡ ok tt
  pub password : length req.password_hash ≤ max_hash_len
  pub salt : length req.argon2_salt ≤ max_hash_len
  pub size : req.bundle_size ≤ max_bundle_size
  pub keys : validate_prekey_bundle ed req.prekey_bundle ≡ ok bundle

module _ (svc : Services) (cfg : Config) (ed : Ed25519) where
  register_lem :
      (now : ℕ) (salt : Text) (id : ℕ) (token access server_hash : Text) (req : RegisterRequest)
      (bundle : PrekeyBundle) (s : Accounts)
      → IsValid ed req bundle
      → svc.hash salt req.password_hash ≡ some server_hash
      → is_taken id req.username req.email s.users ≡ false
      → has_token token s.tokens ≡ false
      → svc.encode (new_claims now id req.username cfg.jwt_access_ttl_secs) ≡ some access
      → register svc cfg ed calm now salt id token req s ≡ (
        ok (record { access_token = access; refresh_token = token; user_id = id }),
        with_token
            (issued now cfg.jwt_refresh_ttl_secs token id req.username)
            (with_account (registered id req server_hash) bundle s),
      )
  unfolding register
  register_lem now salt id token access server_hash req bundle s v hashed free unused encoded =
      rw
        (
          v.username,
          v.email,
          le→ltb _ _ v.password,
          le→ltb _ _ v.salt,
          le→ltb _ _ v.size,
          v.keys,
          hashed,
          free,
        )
        (issue_token_pair_lem svc cfg now id token req.username access
          (with_account (registered id req server_hash) bundle s) encoded unused)

  login_lem :
      (now : ℕ) (token access password stored : Text) (u : User) (s : Accounts)
      → find_user u.username s.users ≡ some u
      → u.password_hash ≡ some stored
      → svc.verify password stored ≡ some true
      → has_token token s.tokens ≡ false
      → svc.encode (new_claims now u.id u.username cfg.jwt_access_ttl_secs) ≡ some access
      → login svc cfg calm now token u.username password s ≡ (
        ok (record { access_token = access; refresh_token = token; user_id = u.id }),
        with_token (issued now cfg.jwt_refresh_ttl_secs token u.id u.username) s,
      )
  unfolding login
  login_lem now token access password stored u s found kept matches unused encoded =
      rw (found, kept, matches)
        (issue_token_pair_lem svc cfg now u.id token u.username access s encoded unused)

  -- Take a valid registration at an unused id, username and email. It succeeds; and a login with the same
  -- username and password hash, whatever time has passed, succeeds for the id that was registered, with
  -- an access token that opens the middleware as that user until it expires.
  pub login-register :
      (now later t : ℕ) (salt : Text) (id : ℕ) (token token' access access' server_hash : Text)
      (req : RegisterRequest) (bundle : PrekeyBundle) (s : Accounts)
      → IsValid ed req bundle
      → svc.hash salt req.password_hash ≡ some server_hash
      → is_taken id req.username req.email s.users ≡ false
      → has_token token s.tokens ≡ false
      → has_token token' s.tokens ≡ false
      → bytes_eq token token' ≡ false
      → svc.encode (new_claims now id req.username cfg.jwt_access_ttl_secs) ≡ some access
      → svc.encode (new_claims later id req.username cfg.jwt_access_ttl_secs) ≡ some access'
      → t < later + cfg.jwt_access_ttl_secs
      → let made = register svc cfg ed calm now salt id token req s in
        let session = login svc cfg calm later token' req.username req.password_hash made.1 in
        (made.0 ≡ ok (record { access_token = access; refresh_token = token; user_id = id }))
        × (session.0 ≡ ok (record { access_token = access'; refresh_token = token'; user_id = id }))
        × (require_auth svc cfg t (some (codes "Bearer " ++ access')) session.1
            ≡ (ok (new_claims later id req.username cfg.jwt_access_ttl_secs), session.1))
  login-register now later t salt id token token' access access' server_hash req bundle s v hashed
        free unused unused' differ encoded encoded' early =
      let u = registered id req server_hash in
      let made =
        with_token (issued now cfg.jwt_refresh_ttl_secs token id req.username)
          (with_account u bundle s) in
      let signed_in =
        login_lem later token' access' req.password_hash server_hash u made
          (find_user-append u s.users free refl) refl
          (svc.verify-hash salt req.password_hash server_hash hashed)
          (has_token-append token' (issued now cfg.jwt_refresh_ttl_secs token id req.username)
            s.tokens unused' differ)
          encoded' in
      rw
        (
          register_lem now salt id token access server_hash req bundle s v hashed free unused
              encoded,
          signed_in,
        )
        (refl, refl, require_auth_lem svc cfg later t id req.username access' _ encoded' early)

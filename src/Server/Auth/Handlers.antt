-- ===== src/Server/Auth/Handlers.antt =====
-- The handlers of apps/server/src/api/auth.rs, and its middleware.
use free_box.Prelude.{
  ℕ, ◌+◌, Bool, not, ◌&&◌, Option, none, some, List, [], ◌∷◌, ◌++◌, length, all, bytes_eq, ltb,
  ◌==◌, if◌then◌else◌,
}
use free_box.Outcome.{reject_if}
use free_box.Server.Error.{internal, unauthorized, bad_request, conflict, not_found}
use free_box.Server.Handler.{Handler, pure, lift, gets, require, modify, await, ◌>>=◌, ◌>>◌}
use free_box.Server.Files.Keys.{Text, codes, is_visible}
use free_box.Crypto.Curves.{Ed25519}
use free_box.Crypto.Keys.{PrekeyBundle}
use free_box.Server.Auth.{
  Claims, Services, User, RefreshToken, Accounts, Config, RegisterRequest, AuthResponse, new_claims,
  max_hash_len, max_bundle_size, validate_username, validate_email, validate_prekey_bundle,
  has_token, is_taken, find_user,
}

abbrev pub issued : ℕ → ℕ → Text → ℕ → Text → RefreshToken
issued now ttl token user_id username = record {
  token = token;
  user_id = user_id;
  username = username;
  expires_at = now + ttl;
}

abbrev pub with_token : RefreshToken → Accounts → Accounts
with_token r s = record s { tokens = s.tokens ++ r ∷ [] }

abbrev pub with_account : User → PrekeyBundle → Accounts → Accounts
with_account u b s = record s {
  users = s.users ++ u ∷ [];
  bundles = λ j. if u.id == j then some b else s.bundles j;
}

-- `DELETE FROM refresh_tokens WHERE …`
abbrev pub delete_tokens : (RefreshToken → Bool) → List RefreshToken → List RefreshToken
delete_tokens p [] = []
delete_tokens p (r ∷ rs) = let rest = delete_tokens p rs in if p r then rest else r ∷ rest

-- the row that RETURNING gives
abbrev pub find_token : (RefreshToken → Bool) → List RefreshToken → Option RefreshToken
find_token p [] = none
find_token p (r ∷ rs) = if p r then some r else find_token p rs

abbrev pub is_live : ℕ → Text → RefreshToken → Bool
is_live now token r = bytes_eq r.token token && ltb now r.expires_at

-- `strip_prefix`
unfoldable pub strip_prefix : Text → Text → Option Text
strip_prefix [] text = some text
strip_prefix (c ∷ cs) [] = none
strip_prefix (c ∷ cs) (d ∷ ds) = if c == d then strip_prefix cs ds else none

-- the Authorization header, if it is there and readable
abbrev pub bearer : Option Text → Option Text
bearer none = none
bearer (some text) = if all is_visible text then strip_prefix (codes "Bearer ") text else none

module _ (svc : Services) (cfg : Config) where
  unfoldable pub issue_token_pair : Bool → ℕ → Text → ℕ → Text → Handler Accounts AuthResponse
  unfolding new_claims
  issue_token_pair answers now refresh_token user_id username = do
    access_token ←
        require (svc.encode (new_claims now user_id username cfg.jwt_access_ttl_secs)) internal
    await answers
    taken ← gets (λ s. has_token refresh_token s.tokens)
    lift (reject_if taken internal)
    modify (with_token (issued now cfg.jwt_refresh_ttl_secs refresh_token user_id username))
    pure (record { access_token = access_token; refresh_token = refresh_token; user_id = user_id })

  -- The two INSERTs stand in one transaction: nothing is written before the commit.
  unfoldable pub register :
      Ed25519 → (ℕ → Bool) → ℕ → Text → ℕ → Text → RegisterRequest → Handler Accounts AuthResponse
  register ed io now salt user_id refresh_token req = do
    lift (validate_username req.username)
    lift (validate_email req.email)
    lift (reject_if (ltb max_hash_len (length req.password_hash)) bad_request)
    lift (reject_if (ltb max_hash_len (length req.argon2_salt)) bad_request)
    lift (reject_if (ltb max_bundle_size req.bundle_size) bad_request)
    prekey_bundle ← lift (validate_prekey_bundle ed req.prekey_bundle)
    server_hash ← require (svc.hash salt req.password_hash) internal
    await (io 0)
    await (io 1)
    taken ← gets (λ s. is_taken user_id req.username req.email s.users)
    lift (reject_if taken conflict)
    await (io 2)
    await (io 3)
    modify (
        with_account
          (record {
            id = user_id;
            username = req.username;
            email = req.email;
            password_hash = some server_hash;
            argon2_salt = some req.argon2_salt;
            deleted_at = none;
          })
          prekey_bundle)
    issue_token_pair (io 4) now refresh_token user_id req.username

  unfoldable pub login : (ℕ → Bool) → ℕ → Text → Text → Text → Handler Accounts AuthResponse
  unfolding issue_token_pair find_user
  login io now refresh_token username password_hash = do
    await (io 0)
    found ← gets (λ s. find_user username s.users)
    user ← require found unauthorized
    stored_hash ← require user.password_hash unauthorized
    matches ← require (svc.verify password_hash stored_hash) internal
    lift (reject_if (not matches) unauthorized)
    issue_token_pair (io 1) now refresh_token user.id user.username

  unfoldable pub refresh : (ℕ → Bool) → ℕ → Text → Text → Handler Accounts AuthResponse
  unfolding issue_token_pair
  refresh io now new_token token = do
    await (io 0)
    found ← gets (λ s. find_token (is_live now token) s.tokens)
    modify (λ s. record s { tokens = delete_tokens (is_live now token) s.tokens })
    row ← require found unauthorized
    issue_token_pair (io 1) now new_token row.user_id row.username

  -- `require_auth`: the claims that the next handler gets
  unfoldable pub require_auth : ℕ → Option Text → Handler Accounts Claims
  unfolding strip_prefix
  require_auth now header = do
    token ← require (bearer header) unauthorized
    require (svc.decode now token) unauthorized

-- The user's salt: OAuth-only accounts have none.
abbrev pub salt_of : Option User → Option Text
salt_of none = none
salt_of (some u) = u.argon2_salt

unfoldable pub get_salt : (ℕ → Bool) → Text → Handler Accounts Text
unfolding validate_username find_user
get_salt io username = do
  lift (validate_username username)
  await (io 0)
  found ← gets (λ s. find_user username s.users)
  require (salt_of found) not_found

unfoldable pub logout : (ℕ → Bool) → ℕ → Text → Handler Accounts (Unit {0})
logout io user_id token = do
  await (io 0)
  modify (λ s. record s {
    tokens = delete_tokens (λ r. bytes_eq r.token token && r.user_id == user_id) s.tokens;
  })

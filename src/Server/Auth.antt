-- ===== src/Server/Auth.antt =====
-- apps/server/src/api/auth.rs: accounts, passwords and tokens. A text is the list of its UTF-8 bytes. What the
-- clock and the random generator return are arguments; `io k` says whether the k-th awaited call succeeds.
pub mod Handlers
pub mod Session
pub mod Account
pub mod Toy
mod Tests
use free_box.Prelude.{
  ℕ, ◌+◌, ◌*◌, ◌<◌, ◌≡◌, Bool, true, false, not, ◌&&◌, ◌||◌, Option, none, some, List, [], ◌∷◌,
  ◌++◌, length, all, bytes_eq, leb, ltb, ◌==◌, if◌then◌else◌,
}
use free_box.Outcome
use free_box.Outcome.{Result, ok, err, reject_if, ok_or}
use free_box.Server.Error.{AppError, internal, unauthorized, bad_request, conflict, not_found}
use free_box.Server.Handler.{Handler, pure, fail, lift, gets, require, modify, await, ◌>>=◌, ◌>>◌}
use free_box.Server.Files.Keys.{Text, codes, is_visible}
use free_box.Crypto.Curves.{Ed25519}
use free_box.Crypto.Keys.{KeyError, PrekeyBundle, validate_public}
use free_box.Server.KeyServer.{Bundles, as_bad_request}

pub record Claims : Type 0 where
  pub sub : ℕ
  pub username : Text
  pub exp : ℕ
  pub iat : ℕ

unfoldable pub new_claims : ℕ → ℕ → Text → ℕ → Claims
new_claims now user_id username ttl_secs = record {
  sub = user_id;
  username = username;
  exp = now + ttl_secs;
  iat = now;
}

-- The crates `argon2` and `jsonwebtoken`, at the server's secret.
pub record Services : Type 0 where
  -- salt and password: `hash_password`
  pub hash : Text → Text → Option Text
  -- password and stored hash: `PasswordHash::new` and `verify_password`
  pub verify : Text → Text → Option Bool
  -- `encode`
  pub encode : Claims → Option Text
  -- the time and a token: `decode` with `validate_exp`
  pub decode : ℕ → Text → Option Claims
  pub verify-hash :
      (salt password stored : Text)
      → hash salt password ≡ some stored
      → verify password stored ≡ some true
  -- base64url and dots
  pub all-encode : (c : Claims) (token : Text) → encode c ≡ some token → all is_visible token ≡ true
  pub decode-encode :
      (now : ℕ) (c : Claims) (token : Text)
      → now < c.exp
      → encode c ≡ some token
      → decode now token ≡ some c

pub record User : Type 0 where
  pub id : ℕ
  pub username : Text
  pub email : Text
  pub password_hash : Option Text
  pub argon2_salt : Option Text
  pub deleted_at : Option ℕ

pub record RefreshToken : Type 0 where
  pub token : Text
  pub user_id : ℕ
  pub username : Text
  pub expires_at : ℕ

pub record Accounts : Type 0 where
  pub users : List User
  pub bundles : Bundles
  pub tokens : List RefreshToken

pub record Config : Type 0 where
  pub jwt_access_ttl_secs : ℕ
  pub jwt_refresh_ttl_secs : ℕ

pub record RegisterRequest : Type 0 where
  pub username : Text
  pub email : Text
  pub password_hash : Text
  pub argon2_salt : Text
  -- the size of the JSON value, and what serde reads from it
  pub bundle_size : ℕ
  pub prekey_bundle : Option PrekeyBundle

pub record AuthResponse : Type 0 where
  pub access_token : Text
  pub refresh_token : Text
  pub user_id : ℕ

abbrev pub max_hash_len : ℕ
max_hash_len = 256

abbrev pub max_bundle_size : ℕ
max_bundle_size = 1024 * 1024

-- `is_ascii_alphanumeric`, the underscore and the hyphen
abbrev pub is_username_char : ℕ → Bool
is_username_char c =
    (leb 48 c && leb c 57)
    || ((leb 65 c && leb c 90) || ((leb 97 c && leb c 122) || (c == 95 || c == 45)))

unfoldable pub validate_username : Text → Result AppError (Unit {0})
validate_username username =
    Outcome.◌>>◌ (reject_if (ltb (length username) 3 || ltb 32 (length username)) bad_request)
      (reject_if (not (all is_username_char username)) bad_request)

abbrev pub has : ℕ → Text → Bool
has c [] = false
has c (d ∷ ds) = d == c || has c ds

unfoldable pub validate_email : Text → Result AppError (Unit {0})
validate_email email =
    reject_if
      (length email == 0 || (ltb 254 (length email) || (not (has b'@' email) || has b' ' email)))
      bad_request

unfoldable pub validate_prekey_bundle : Ed25519 → Option PrekeyBundle → Result AppError PrekeyBundle
validate_prekey_bundle ed value =
    Outcome.◌>>=◌ (ok_or value bad_request)
      (λ bundle. Outcome.◌>>=◌ (as_bad_request (validate_public ed bundle)) (λ _. ok bundle))

-- Tables.
abbrev pub has_token : Text → List RefreshToken → Bool
has_token token [] = false
has_token token (r ∷ rs) = bytes_eq r.token token || has_token token rs

-- the unique columns: the id, the username and the email
abbrev pub is_taken : ℕ → Text → Text → List User → Bool
is_taken id username email [] = false
is_taken id username email (u ∷ us) =
    (u.id == id || (bytes_eq u.username username || bytes_eq u.email email))
    || is_taken id username email us

abbrev pub is_present : Option ℕ → Bool
is_present none = true
is_present (some t) = false

-- `WHERE username = $1 AND deleted_at IS NULL`
unfoldable pub find_user : Text → List User → Option User
find_user username [] = none
find_user username (u ∷ us) =
    if bytes_eq u.username username && is_present u.deleted_at
    then some u
    else find_user username us

-- ===== src/Server/Oauth.antt =====
-- apps/server/src/api/oauth.rs: the tables and types of signing in with another provider. A name of a provider
-- and any other text is a list of UTF-8 bytes.
pub mod Provider
pub mod Resolve
pub mod Flow
pub mod Manage
mod Tests
use free_box.Prelude.{
  ℕ, ◌+◌, ◌*◌, ◌-◌, ◌≡◌, Bool, true, false, not, ◌&&◌, Option, none, some, List, [], ◌∷◌, ◌++◌,
  bytes_eq, all, leb, ◌==◌, if◌then◌else◌,
}
use free_box.Outcome.{Result, ok, err}
use free_box.Server.Error.{AppError}
use free_box.Server.Handler.{Handler}
use free_box.Server.Files.Keys.{Text, UuidText}
use free_box.Server.Auth.{Accounts, User}

-- A row of `oauth_accounts`.
pub record Link : Type 0 where
  pub user_id : ℕ
  pub provider : Text
  pub provider_user_id : Text
  pub provider_email : Option Text
  pub provider_username : Option Text
  pub avatar_url : Option Text
  pub created_at : ℕ

-- A row of `oauth_states`.
pub record OauthState : Type 0 where
  pub state : Text
  pub pkce_verifier : Text
  pub provider : Text
  pub expires_at : ℕ

-- `reason` of the JSON column `details`
pub data Reason : Type 0 where
  oauth_identity_match oauth_email_match : Reason

-- A row of `account_audit_events`; its type and source are constants.
pub record AuditEvent : Type 0 where
  pub user_id : ℕ
  pub event_type : Text
  pub source : Text
  pub provider : Option Text
  pub provider_user_id : Option Text
  pub reason : Reason
  pub deleted_at : ℕ
  pub created_at : ℕ

pub record OauthStore : Type 0 where
  pub accounts : Accounts
  pub links : List Link
  pub states : List OauthState
  pub audit : List AuditEvent

-- `OAuthUserProfile`
pub record Profile : Type 0 where
  pub provider_user_id : Text
  pub email : Option Text
  pub username : Option Text
  pub avatar_url : Option Text

-- The `uuid` crate also reads the text that it writes, which has no colon.
pub record UuidCodec : Type 0 where
  pub uuid : UuidText
  pub parse_str : Text → Option ℕ
  pub parse_str-text : (id : ℕ) → parse_str (uuid.text id) ≡ some id
  pub no_colon : (id : ℕ) → all (λ c. not (c == b':')) (uuid.text id) ≡ true

-- A handler on the accounts, run on the whole state.
abbrev pub on_accounts {ℓ} : {A : Type ℓ} → Handler Accounts A → Handler OauthStore A
on_accounts m s = let (r, accounts) = m s.accounts in (r, record s { accounts = accounts })

-- `begin`, then `commit` if the body gives a value, and otherwise a rollback.
abbrev pub settle {ℓ} :
    {A : Type ℓ}
    → Result AppError (Option A) × OauthStore
    → OauthStore
    → Result AppError (Option A) × OauthStore
settle (ok (some a), after) s = (ok (some a), after)
settle (ok none, after) s = (ok none, s)
settle (err e, after) s = (err e, s)

abbrev pub transaction {ℓ} :
    {A : Type ℓ} → Handler OauthStore (Option A) → Handler OauthStore (Option A)
transaction body s = settle (body s) s

-- `users`, by id: an UPDATE, and the row
abbrev pub update_users : (User → Bool) → (User → User) → List User → List User
update_users p g [] = []
update_users p g (u ∷ us) = (if p u then g u else u) ∷ update_users p g us

abbrev pub first_user : (User → Bool) → List User → Option User
first_user p [] = none
first_user p (u ∷ us) = if p u then some u else first_user p us

abbrev pub with_id : ℕ → User → Bool
with_id id u = u.id == id

abbrev pub with_email : Text → User → Bool
with_email email u = bytes_eq u.email email

abbrev pub set_users : List User → OauthStore → OauthStore
set_users us s = record s { accounts = record s.accounts { users = us } }

abbrev pub revive : User → User
revive u = record u { deleted_at = none }

-- `oauth_accounts`
abbrev pub is_identity : Text → Text → Link → Bool
is_identity provider id l = bytes_eq l.provider provider && bytes_eq l.provider_user_id id

abbrev pub first_link : (Link → Bool) → List Link → Option Link
first_link p [] = none
first_link p (l ∷ ls) = if p l then some l else first_link p ls

abbrev pub count_links : (Link → Bool) → List Link → ℕ
count_links p [] = 0
count_links p (l ∷ ls) = (if p l then 1 else 0) + count_links p ls

abbrev pub delete_links : (Link → Bool) → List Link → List Link
delete_links p [] = []
delete_links p (l ∷ ls) = let rest = delete_links p ls in if p l then rest else l ∷ rest

abbrev pub of_user : ℕ → Link → Bool
of_user user l = l.user_id == user

abbrev pub of_user_at : ℕ → Text → Link → Bool
of_user_at user provider l = l.user_id == user && bytes_eq l.provider provider

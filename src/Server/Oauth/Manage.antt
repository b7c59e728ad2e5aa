-- ===== src/Server/Oauth/Manage.antt =====
-- apps/server/src/api/oauth.rs: the linked providers of an account, unlinking, and the audit events.
pub mod Lockout
use free_box.Prelude.{
  ℕ, ◌+◌, Bool, true, false, not, ◌&&◌, ◌||◌, Option, none, some, List, [], ◌∷◌, ◌++◌, length, take,
  drop, map, bytes_eq, ltb, leb, ◌==◌, if◌then◌else◌,
}
use free_box.Prelude.Int.{ℤ, pos, negsuc}
use free_box.Outcome.{Result, ok, err, reject_if}
use free_box.Server.Error.{AppError, internal, bad_request, not_found, forbidden}
use free_box.Server.Handler.{Handler, pure, lift, gets, require, modify, await, ◌>>=◌, ◌>>◌}
use free_box.Server.Files.Keys.{Text}
use free_box.Server.Auth.{User}
use free_box.Server.Oauth.{
  Link, OauthStore, AuditEvent, first_user, with_id, count_links, delete_links, of_user, of_user_at,
}
use free_box.Server.Oauth.Provider.{github, google, microsoft, apple, facebook}
use free_box.Server.Oauth.Flow.{Oauth, ProviderConfig}

-- `WHERE`, and `ORDER BY` by an insertion that keeps the order of rows that are alike, which the database
-- does not promise
module _ {ℓ} {A : Type ℓ} where
  unfoldable pub where_rows : (A → Bool) → List A → List A
  where_rows p [] = []
  where_rows p (a ∷ rest) = let more = where_rows p rest in if p a then a ∷ more else more

  unfoldable pub insert_by : (A → A → Bool) → A → List A → List A
  insert_by before a [] = a ∷ []
  insert_by before a (b ∷ rest) =
      let more = insert_by before a rest in if before a b then a ∷ b ∷ rest else b ∷ more

  unfoldable pub order_by : (A → A → Bool) → List A → List A
  unfolding insert_by
  order_by before [] = []
  order_by before (a ∷ rest) = insert_by before a (order_by before rest)

pub record LinkedProvider : Type 0 where
  pub provider : Text
  pub provider_username : Option Text
  pub provider_email : Option Text
  pub avatar_url : Option Text
  pub linked_at : ℕ

pub record ListProvidersResponse : Type 0 where
  pub providers : List LinkedProvider
  pub has_password : Bool

abbrev pub linked_provider_of : Link → LinkedProvider
linked_provider_of l = record {
  provider = l.provider;
  provider_username = l.provider_username;
  provider_email = l.provider_email;
  avatar_url = l.avatar_url;
  linked_at = l.created_at;
}

-- `SELECT password_hash IS NOT NULL FROM users WHERE id = $1`
abbrev pub is_some {ℓ} : {A : Type ℓ} → Option A → Bool
is_some none = false
is_some (some a) = true

abbrev pub has_password_of : Option User → Option Bool
has_password_of none = none
has_password_of (some u) = some (is_some u.password_hash)

unfoldable pub list_providers : (ℕ → Bool) → ℕ → Handler OauthStore ListProvidersResponse
unfolding where_rows order_by
list_providers io user = do
  await (io 0)
  rows ←
      gets
        (λ s. order_by (λ a b. leb a.created_at b.created_at) (where_rows (of_user user) s.links))
  await (io 1)
  found ← gets (λ s. has_password_of (first_user (with_id user) s.accounts.users))
  has_password ← require found internal
  pure (record { providers = map linked_provider_of rows; has_password = has_password })

unfoldable pub unlink_provider :
    (Text → Text) → (ℕ → Bool) → ℕ → Text → Handler OauthStore (Unit {0})
unlink_provider to_lowercase io user path = do
  let provider = to_lowercase path
  await (io 0)
  found ← gets (λ s. has_password_of (first_user (with_id user) s.accounts.users))
  has_password ← require found internal
  await (io 1)
  oauth_count ← gets (λ s. count_links (of_user user) s.links)
  lift (reject_if (not has_password && leb oauth_count 1) bad_request)
  await (io 2)
  affected ← gets (λ s. count_links (of_user_at user provider) s.links)
  modify (λ s. record s { links = delete_links (of_user_at user provider) s.links })
  lift (reject_if (affected == 0) not_found)

unfoldable pub list_configured_providers : Oauth → List Text
unfolding where_rows
list_configured_providers oauth =
    where_rows (λ p. is_some (oauth.configured p))
      (github ∷ google ∷ microsoft ∷ apple ∷ facebook ∷ [])

-- `clamp(1, most)` of a limit with its default, and `max(0)` of an offset
abbrev pub clamp_limit : ℕ → ℕ → Option ℤ → ℕ
clamp_limit default most none = default
clamp_limit default most (some (pos n)) = if ltb n 1 then 1 else if ltb most n then most else n
clamp_limit default most (some (negsuc n)) = 1

abbrev pub clamp_offset : Option ℤ → ℕ
clamp_offset none = 0
clamp_offset (some (pos n)) = n
clamp_offset (some (negsuc n)) = 0

abbrev pub newest_first : AuditEvent → AuditEvent → Bool
newest_first a b = leb b.created_at a.created_at

unfoldable pub list_account_audit_events :
    (ℕ → Bool) → ℕ → Option ℤ → Handler OauthStore (List AuditEvent)
unfolding where_rows order_by
list_account_audit_events io user limit = do
  await (io 0)
  gets (λ s.
      take (clamp_limit 50 100 limit)
        (order_by newest_first (where_rows (λ e. e.user_id == user) s.audit)))

pub record ListAdminAuditEventsQuery : Type 0 where
  pub limit : Option ℤ
  pub offset : Option ℤ
  pub user_id : Option ℕ
  pub event_type : Option Text
  pub source : Option Text
  pub provider : Option Text

pub record ListAdminAuditEventsResponse : Type 0 where
  pub events : List AuditEvent
  pub limit : ℕ
  pub offset : ℕ
  pub next_offset : Option ℕ

unfoldable pub is_admin_user : List ℕ → ℕ → Bool
is_admin_user [] user = false
is_admin_user (id ∷ ids) user = id == user || is_admin_user ids user

-- `$1 IS NULL OR column = $1`
abbrev pub asks_text : Option Text → Text → Bool
asks_text none column = true
asks_text (some wanted) column = bytes_eq column wanted

abbrev pub asks_nullable : Option Text → Option Text → Bool
asks_nullable none column = true
asks_nullable (some wanted) none = false
asks_nullable (some wanted) (some column) = bytes_eq column wanted

abbrev pub asks_user : Option ℕ → ℕ → Bool
asks_user none column = true
asks_user (some wanted) column = column == wanted

abbrev pub asks : ListAdminAuditEventsQuery → AuditEvent → Bool
asks q e =
    asks_user q.user_id e.user_id
    && (asks_text q.event_type e.event_type
        && (asks_text q.source e.source && asks_nullable q.provider e.provider))

unfoldable pub list_account_audit_events_admin :
    (ℕ → Bool)
    → List ℕ
    → ℕ
    → ListAdminAuditEventsQuery
    → Handler OauthStore ListAdminAuditEventsResponse
unfolding is_admin_user where_rows order_by
list_account_audit_events_admin io admins user q = do
  lift (reject_if (not (is_admin_user admins user)) forbidden)
  let limit = clamp_limit 100 200 q.limit
  let offset = clamp_offset q.offset
  await (io 0)
  rows ← gets (λ s. take limit (drop offset (order_by newest_first (where_rows (asks q) s.audit))))
  pure (record {
    events = rows;
    limit = limit;
    offset = offset;
    next_offset = if length rows == limit then some (offset + limit) else none;
  })

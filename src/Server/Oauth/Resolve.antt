-- ===== src/Server/Oauth/Resolve.antt =====
-- apps/server/src/api/oauth.rs: from a profile to an account, `find_or_create_user`. The numbers of `io` count
-- the awaited calls of each branch.
pub mod Reactivation
pub mod Again
use free_box.Prelude.{
  ℕ, ◌+◌, ◌*◌, ◌-◌, Bool, true, false, not, ◌&&◌, ◌||◌, Option, none, some, List, [], ◌∷◌, ◌++◌,
  bytes_eq, leb, ◌==◌, if◌then◌else◌,
}
use free_box.Outcome.{Result, ok, err, reject_if}
use free_box.Server.Error.{AppError, internal, conflict}
use free_box.Server.Handler.{Handler, pure, fail, lift, gets, require, modify, await, ◌>>=◌, ◌>>◌}
use free_box.Server.Files.Keys.{Text, UuidText, codes}
use free_box.Server.Auth.{User, Accounts}
use free_box.Server.Oauth.{
  Link, OauthStore, AuditEvent, Reason, oauth_identity_match, oauth_email_match, Profile,
  transaction, update_users, first_user, with_id, with_email, set_users, revive, is_identity,
  first_link,
}
use free_box.Server.Oauth.Provider.Names.{unique_oauth_username, oauth_email}

-- In seconds; `chrono::Duration::days` of a `u32` does not overflow.
unfoldable pub reactivation_within_window : ℕ → ℕ → ℕ → Bool
reactivation_within_window deleted_at max_days now =
    if max_days == 0 then true else leb (now - deleted_at) (max_days * 86400)

unfoldable pub ensure_reactivation_allowed : ℕ → ℕ → ℕ → Result AppError (Unit {0})
unfolding reactivation_within_window
ensure_reactivation_allowed max_days now deleted_at =
    reject_if (not (reactivation_within_window deleted_at max_days now)) conflict

-- What a resolution draws from the clock and the random generator: the time, the id of a new user, and the
-- ids in a new name and in a new address.
pub record Draws : Type 0 where
  pub now : ℕ
  pub user_id : ℕ
  pub name_id : ℕ
  pub email_id : ℕ

-- `UPDATE users SET deleted_at = NULL WHERE …`
abbrev pub revive_users : (User → Bool) → OauthStore → OauthStore
revive_users p s = set_users (update_users p revive s.accounts.users) s

abbrev pub reactivated : ℕ → ℕ → Text → Text → Reason → ℕ → AuditEvent
reactivated now user_id provider provider_user_id reason deleted_at = record {
  user_id = user_id;
  event_type = codes "account_reactivated";
  source = codes "oauth";
  provider = some provider;
  provider_user_id = some provider_user_id;
  reason = reason;
  deleted_at = deleted_at;
  created_at = now;
}

unfoldable pub write_reactivation_audit_event : Bool → AuditEvent → Handler OauthStore (Unit {0})
write_reactivation_audit_event answers e = do
  await answers
  modify (λ s. record s { audit = s.audit ++ e ∷ [] })

-- the steps for a row with `deleted_at`
abbrev pub reactivate :
    (ℕ → Bool) → ℕ → ℕ → ℕ → Text → Text → Reason → Option ℕ → Handler OauthStore (Unit {0})
reactivate io max_days now user_id provider provider_user_id reason none = pure tt
reactivate io max_days now user_id provider provider_user_id reason (some deleted_at) = do
  lift (ensure_reactivation_allowed max_days now deleted_at)
  await (io 0)
  modify (revive_users (with_id user_id))
  write_reactivation_audit_event (io 1)
      (reactivated now user_id provider provider_user_id reason deleted_at)

abbrev pub refresh_link : Profile → Link → Link
refresh_link p l = record l {
  provider_email = p.email;
  provider_username = p.username;
  avatar_url = p.avatar_url;
}

abbrev pub update_links : (Link → Bool) → (Link → Link) → List Link → List Link
update_links p g [] = []
update_links p g (l ∷ ls) = (if p l then g l else l) ∷ update_links p g ls

-- `oauth_accounts JOIN users`
abbrev pub user_of : Option Link → List User → Option User
user_of none us = none
user_of (some l) us = first_user (with_id l.user_id) us

unfoldable pub linked_user : Text → Text → OauthStore → Option User
linked_user provider provider_user_id s =
    user_of (first_link (is_identity provider provider_user_id) s.links) s.accounts.users

-- 1. the exact match
unfoldable pub sign_in_linked :
    (ℕ → Bool) → ℕ → ℕ → Text → Profile → User → Handler OauthStore (Option (ℕ × Text))
unfolding ensure_reactivation_allowed write_reactivation_audit_event
sign_in_linked io max_days now provider p user = do
  reactivate (λ k. io (k + 2)) max_days now user.id provider p.provider_user_id oauth_identity_match
      user.deleted_at
  await (io 4)
  modify (λ s. record s {
    links = update_links (is_identity provider p.provider_user_id) (refresh_link p) s.links;
  })
  await (io 5)
  pure (some (user.id, user.username))

-- `INSERT INTO users … ON CONFLICT (email) DO UPDATE SET deleted_at = NULL RETURNING id, username`
abbrev pub insert_or_revive : User → Option User → Handler OauthStore (ℕ × Text)
insert_or_revive u (some old) = do
  modify (revive_users (with_email u.email))
  pure (old.id, old.username)
insert_or_revive u none = do
  taken ←
      gets (λ s. first_user (λ v. v.id == u.id || bytes_eq v.username u.username) s.accounts.users)
  lift (reject_taken taken)
  modify (λ s. set_users (s.accounts.users ++ u ∷ []) s)
  pure (u.id, u.username)
  where
    reject_taken : Option User → Result AppError (Unit {0})
    reject_taken none = ok tt
    reject_taken (some v) = err conflict

abbrev pub new_user : UuidText → Draws → Text → Profile → User
new_user uuid d provider p = record {
  id = d.user_id;
  username = unique_oauth_username uuid d.name_id p;
  email = oauth_email uuid d.email_id provider p;
  password_hash = none;
  argon2_salt = none;
  deleted_at = none;
}

abbrev pub user_by_email : Option Text → OauthStore → Option User
user_by_email none s = none
user_by_email (some email) s = first_user (with_email email) s.accounts.users

abbrev pub new_link : ℕ → ℕ → Text → Profile → Link
new_link now user_id provider p = record {
  user_id = user_id;
  provider = provider;
  provider_user_id = p.provider_user_id;
  provider_email = p.email;
  provider_username = p.username;
  avatar_url = p.avatar_url;
  created_at = now;
}

abbrev pub is_none {ℓ} : {A : Type ℓ} → Option A → Bool
is_none none = true
is_none (some a) = false

-- `INSERT INTO oauth_accounts … ON CONFLICT DO NOTHING RETURNING user_id`: is a row inserted
unfoldable pub insert_link : Link → Handler OauthStore Bool
insert_link l s =
    let unused = is_none (first_link (is_identity l.provider l.provider_user_id) s.links) in
    (ok unused, if unused then record s { links = s.links ++ l ∷ [] } else s)

module _ (uuid : UuidText) where
  -- 2. the email match, and 3. a new user
  abbrev pub choose_user :
      (ℕ → Bool) → ℕ → Draws → Text → Profile → Option User → Handler OauthStore (ℕ × Text)
  choose_user io max_days d provider p (some user) = do
    reactivate (λ k. io (k + 2)) max_days d.now user.id provider p.provider_user_id
        oauth_email_match user.deleted_at
    pure (user.id, user.username)
  choose_user io max_days d provider p none = do
    await (io 2)
    taken ←
        gets
          (λ s. first_user (with_email (oauth_email uuid d.email_id provider p)) s.accounts.users)
    insert_or_revive (new_user uuid d provider p) taken

  unfoldable pub sign_in_unlinked :
      (ℕ → Bool) → ℕ → Draws → Text → Profile → Handler OauthStore (Option (ℕ × Text))
  unfolding insert_link
  sign_in_unlinked io max_days d provider p = do
    await (is_none p.email || io 1)
    email_match ← gets (user_by_email p.email)
    chosen ← choose_user io max_days d provider p email_match
    await (io 4)
    inserted ← insert_link (new_link d.now chosen.0 provider p)
    if inserted then (await (io 5) >> pure (some chosen)) else pure none

  abbrev pub sign_in :
      (ℕ → Bool) → ℕ → Draws → Text → Profile → Option User → Handler OauthStore (Option (ℕ × Text))
  sign_in io max_days d provider p (some user) = sign_in_linked io max_days d.now provider p user
  sign_in io max_days d provider p none = sign_in_unlinked io max_days d provider p

  -- an account of `fetch_linked_oauth_user`: the account must be active
  abbrev pub active_name : Option User → Option (ℕ × Text)
  active_name none = none
  active_name (some u) = elim u.deleted_at [ none ↦ some (u.id, u.username) | some t ↦ none ]

  unfoldable pub fetch_linked_oauth_user : Bool → Text → Text → Handler OauthStore (ℕ × Text)
  unfolding linked_user
  fetch_linked_oauth_user answers provider provider_user_id = do
    await answers
    found ← gets (linked_user provider provider_user_id)
    require (active_name found) conflict

  abbrev pub or_linked : Bool → Text → Text → Option (ℕ × Text) → Handler OauthStore (ℕ × Text)
  or_linked answers provider id none = fetch_linked_oauth_user answers provider id
  or_linked answers provider id (some r) = pure r

  unfoldable pub find_or_create_user :
      (ℕ → Bool) → ℕ → Draws → Text → Profile → Handler OauthStore (ℕ × Text)
  unfolding sign_in_linked sign_in_unlinked fetch_linked_oauth_user linked_user
  find_or_create_user io max_days d provider p = do
    settled ← transaction (do
      await (io 0)
      existing ← gets (linked_user provider p.provider_user_id)
      sign_in (λ k. io (k + 1)) max_days d provider p existing)
    or_linked (io 7) provider p.provider_user_id settled

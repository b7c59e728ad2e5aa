-- ===== src/Server/Oauth/Resolve/Again.antt =====
-- apps/server/src/api/oauth.rs: an identity that signs in a second time.
use free_box.Prelude.{
  ℕ, ◌≡◌, refl, Bool, true, ◌||◌, none, some, List, [], ◌∷◌, ◌++◌, bytes_eq, bytes_eq_refl, ◌==◌,
  arith,
}
use free_box.Outcome.{ok}
use free_box.Server.Files.Keys.{Text, UuidText}
use free_box.Server.Auth.{User}
use free_box.Server.Oauth.{
  Link, OauthStore, Profile, first_user, with_id, with_email, set_users, is_identity, first_link,
}
use free_box.Server.Oauth.Provider.Names.{oauth_email, unique_oauth_username}
use free_box.Server.Oauth.Resolve.{
  Draws, linked_user, new_user, new_link, insert_link, choose_user, sign_in_linked,
  sign_in_unlinked, find_or_create_user, user_by_email, is_none, refresh_link, update_links,
}
use free_box.Server.Oauth.Resolve.Reactivation.{calm}

-- The row of a user whose id or username is taken.
abbrev pub clashes : User → User → Bool
clashes u v = v.id == u.id || bytes_eq v.username u.username

pub first_link-append :
    (p : Link → Bool) (l : Link) (ls : List Link)
    → first_link p ls ≡ none
    → p l ≡ true
    → first_link p (ls ++ l ∷ []) ≡ some l
first_link-append p l [] h k = rw k refl
first_link-append p l (m ∷ ls) h k = ground (arith, first_link-append p l ls)

first_user-append :
    (u : User) (us : List User)
    → first_user (clashes u) us ≡ none
    → first_user (with_id u.id) (us ++ u ∷ []) ≡ some u
first_user-append u [] h = ground arith
first_user-append u (v ∷ us) h = ground (arith, first_user-append u us)

module _ (uuid : UuidText) (max_days : ℕ) (provider : Text) where
  choose_user-new :
      (d : Draws) (p : Profile) (s : OauthStore)
      → first_user (with_email (oauth_email uuid d.email_id provider p)) s.accounts.users ≡ none
      → first_user (clashes (new_user uuid d provider p)) s.accounts.users ≡ none
      → choose_user uuid calm max_days d provider p none s ≡ (
        ok (d.user_id, unique_oauth_username uuid d.name_id p),
        set_users (s.accounts.users ++ new_user uuid d provider p ∷ []) s,
      )
  choose_user-new d p s address free = rw (address, free) refl

  -- The state after a new identity has made an account.
  abbrev pub created : Draws → Profile → OauthStore → OauthStore
  created d p s = record (set_users (s.accounts.users ++ new_user uuid d provider p ∷ []) s) {
    links = s.links ++ new_link d.now d.user_id provider p ∷ [];
  }

  create_lem :
      (d : Draws) (p : Profile) (s : OauthStore)
      → first_link (is_identity provider p.provider_user_id) s.links ≡ none
      → user_by_email p.email s ≡ none
      → first_user (with_email (oauth_email uuid d.email_id provider p)) s.accounts.users ≡ none
      → first_user (clashes (new_user uuid d provider p)) s.accounts.users ≡ none
      → find_or_create_user uuid calm max_days d provider p s
        ≡ (ok (d.user_id, unique_oauth_username uuid d.name_id p), created d p s)
  unfolding find_or_create_user linked_user sign_in_unlinked insert_link
  create_lem d p s new missed address free =
      let answered : (is_none p.email || true) ≡ true = ground arith in
      let chosen = choose_user-new d p s address free in
      rw (new, answered, missed, chosen, new) refl

  linked_lem :
      (d : Draws) (p : Profile) (id : Text) (s : OauthStore)
      → id ≡ p.provider_user_id
      → first_link (is_identity provider p.provider_user_id) s.links ≡ none
      → first_user (clashes (new_user uuid d provider p)) s.accounts.users ≡ none
      → linked_user provider id (created d p s) ≡ some (new_user uuid d provider p)
  unfolding linked_user
  linked_lem d p id s same new free =
      let link = new_link d.now d.user_id provider p in
      let found =
        first_link-append (is_identity provider p.provider_user_id) link s.links new
          (rw (bytes_eq_refl provider, bytes_eq_refl p.provider_user_id) refl) in
      rw (same, found, first_user-append (new_user uuid d provider p) s.accounts.users free) refl

  again_lem :
      (d : Draws) (q : Profile) (u : User) (s : OauthStore)
      → linked_user provider q.provider_user_id s ≡ some u
      → u.deleted_at ≡ none
      → find_or_create_user uuid calm max_days d provider q s ≡ (
        ok (u.id, u.username),
        record s {
          links = update_links (is_identity provider q.provider_user_id) (refresh_link q) s.links;
        },
      )
  unfolding find_or_create_user sign_in_linked linked_user
  again_lem d q u s linked active = rw (linked, active) refl

  -- Take an identity that is not linked, with an address that no account has, and an id and a name that are
  -- unused. It signs in as a new account; and when it signs in again, at any time, with any name and
  -- address that the provider then gives, it is the same account and no account is added or changed.
  pub same_identity_same_account :
      (d later : Draws) (p q : Profile) (s : OauthStore)
      → first_link (is_identity provider p.provider_user_id) s.links ≡ none
      → user_by_email p.email s ≡ none
      → first_user (with_email (oauth_email uuid d.email_id provider p)) s.accounts.users ≡ none
      → first_user (clashes (new_user uuid d provider p)) s.accounts.users ≡ none
      → q.provider_user_id ≡ p.provider_user_id
      → let once = find_or_create_user uuid calm max_days d provider p s in
        let twice = find_or_create_user uuid calm max_days later provider q once.1 in
        (once.0 ≡ ok (d.user_id, unique_oauth_username uuid d.name_id p))
        × (twice.0 ≡ once.0)
        × (once.1.accounts.users ≡ s.accounts.users ++ new_user uuid d provider p ∷ [])
        × (twice.1.accounts ≡ once.1.accounts)
  same_identity_same_account d later p q s new missed address free same =
      let u = new_user uuid d provider p in
      let linked : linked_user provider q.provider_user_id (created d p s) ≡ some u =
        linked_lem d p q.provider_user_id s same new free in
      rw (create_lem d p s new missed address free, again_lem later q u (created d p s) linked refl)
        (refl, refl, refl, refl)

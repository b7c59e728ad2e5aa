-- ===== src/Server/Oauth/Resolve/Reactivation.antt =====
-- apps/server/src/api/oauth.rs: deleted accounts that come back.
use free_box.Prelude.{
  ℕ, ◌*◌, ◌-◌, ◌<◌, ◌≡◌, refl, Bool, true, false, ◌||◌, none, some, List, [], ◌∷◌, ◌++◌, ◌==◌,
  length, arith,
}
use free_box.Outcome.{ok, err}
use free_box.Server.Error.{conflict}
use free_box.Server.Files.Keys.{Text, UuidText}
use free_box.Server.Auth.{User}
use free_box.Server.Oauth.{
  OauthStore, Profile, update_users, first_user, with_email, revive, is_identity, first_link,
}
use free_box.Texts.Trim.{trim}
use free_box.Server.Oauth.Provider.Names.{oauth_email}
use free_box.Server.Oauth.Resolve.{
  Draws, reactivation_within_window, ensure_reactivation_allowed, revive_users, linked_user,
  new_link, insert_link, choose_user, sign_in_unlinked, find_or_create_user, user_by_email, is_none,
}

abbrev pub calm : ℕ → Bool
calm k = true

first_user-revive :
    (email : Text) (us : List User) (u : User)
    → first_user (with_email email) us ≡ some u
    → first_user (with_email email) (update_users (with_email email) revive us) ≡ some (revive u)
first_user-revive email [] u h = cc h
first_user-revive email (v ∷ us) u h = ground (arith, first_user-revive email us u)

too_late :
    (deleted_at max_days now : ℕ)
    → 0 < max_days
    → max_days * 86400 < now - deleted_at
    → ensure_reactivation_allowed max_days now deleted_at ≡ err conflict
unfolding ensure_reactivation_allowed reactivation_within_window
too_late deleted_at max_days now h k = ground arith

oauth_email-trim :
    (uuid : UuidText) (id : ℕ) (provider email padded : Text) (p : Profile)
    → p.email ≡ some padded
    → trim padded ≡ email
    → (length email == 0) ≡ false
    → oauth_email uuid id provider p ≡ email
unfolding oauth_email
oauth_email-trim uuid id provider email padded p same trimmed nonempty =
    rw (same, trimmed, nonempty) refl

-- The INSERT of a new user at an address that is taken.
choose_user-taken :
    (uuid : UuidText) (max_days : ℕ) (d : Draws) (provider : Text) (p : Profile) (u : User)
    (s : OauthStore)
    → oauth_email uuid d.email_id provider p ≡ u.email
    → first_user (with_email u.email) s.accounts.users ≡ some u
    → choose_user uuid calm max_days d provider p none s
      ≡ (ok (u.id, u.username), revive_users (with_email u.email) s)
choose_user-taken uuid max_days d provider p u s address known = rw (address, known) refl

module _ (uuid : UuidText) (max_days : ℕ) (d : Draws) (provider : Text) (u : User) (deleted_at : ℕ)
    (s : OauthStore) (known : first_user (with_email u.email) s.accounts.users ≡ some u)
    (gone : u.deleted_at ≡ some deleted_at) (limited : 0 < max_days)
    (late : max_days * 86400 < d.now - deleted_at) where
  -- The exact address: the window holds.
  refused_lem :
      (p : Profile)
      → first_link (is_identity provider p.provider_user_id) s.links ≡ none
      → p.email ≡ some u.email
      → find_or_create_user uuid calm max_days d provider p s ≡ (err conflict, s)
  unfolding find_or_create_user linked_user sign_in_unlinked
  refused_lem p new same =
      rw (new, same, known, gone, too_late deleted_at max_days d.now limited late) refl

  evaded_lem :
      (p : Profile) (padded : Text)
      → first_link (is_identity provider p.provider_user_id) s.links ≡ none
      → p.email ≡ some padded
      → trim padded ≡ u.email
      → (length u.email == 0) ≡ false
      → first_user (with_email padded) s.accounts.users ≡ none
      → find_or_create_user uuid calm max_days d provider p s ≡ (
        ok (u.id, u.username),
        record (revive_users (with_email u.email) s) {
          links = s.links ++ new_link d.now u.id provider p ∷ [];
        },
      )
  unfolding find_or_create_user linked_user sign_in_unlinked insert_link
  evaded_lem p padded new same trimmed nonempty unknown =
      let address =
        oauth_email-trim uuid d.email_id provider u.email padded p same trimmed nonempty in
      let chosen = choose_user-taken uuid max_days d provider p u s address known in
      let missed : user_by_email p.email s ≡ none = rw same unknown in
      let answered : (is_none p.email || true) ≡ true = rw same refl in
      rw (new, answered, missed, chosen, new) refl

  -- Take a deleted account whose time for coming back is over, and a provider identity that is not linked. If
  -- the provider gives the account's address, signing in is a conflict and changes nothing. If it gives
  -- the address with white space around it (which is nobody's address), signing in succeeds as that
  -- account: the account is active again, the identity is linked to it, and no audit event is written.
  pub reactivation_evaded :
      (p q : Profile) (padded : Text)
      → first_link (is_identity provider p.provider_user_id) s.links ≡ none
      → first_link (is_identity provider q.provider_user_id) s.links ≡ none
      → p.email ≡ some u.email
      → q.email ≡ some padded
      → trim padded ≡ u.email
      → (length u.email == 0) ≡ false
      → first_user (with_email padded) s.accounts.users ≡ none
      → let after = (find_or_create_user uuid calm max_days d provider q s).1 in
        (find_or_create_user uuid calm max_days d provider p s ≡ (err conflict, s))
        × ((find_or_create_user uuid calm max_days d provider q s).0 ≡ ok (u.id, u.username))
        × (first_user (with_email u.email) after.accounts.users ≡ some (revive u))
        × (after.links ≡ s.links ++ new_link d.now u.id provider q ∷ [])
        × (after.audit ≡ s.audit)
  reactivation_evaded p q padded new_p new_q exact near trimmed nonempty unknown =
      rw (evaded_lem q padded new_q near trimmed nonempty unknown) (
        refused_lem p new_p exact,
        refl,
        first_user-revive u.email s.accounts.users u known,
        refl,
        refl,
      )

-- ===== src/Server/Oauth/Manage/Lockout.antt =====
-- Unlinking in apps/server/src/api/oauth.rs, and the ways in that an account keeps.
use free_box.Prelude.{
  ℕ, ◌+◌, ◌≤◌, ◌≡◌, true, Option, none, some, List, [], ◌∷◌, if◌then◌else◌, arith,
}
use free_box.Outcome.{ok}
use free_box.Server.Files.Keys.{Text}
use free_box.Server.Auth.{User}
use free_box.Server.Oauth.{
  Link, OauthStore, first_user, with_id, count_links, delete_links, of_user, of_user_at,
}
use free_box.Server.Oauth.Manage.{unlink_provider, is_some}

-- A password counts as one way in, and every linked identity as one more. The sign-in that finds an account
-- by its mail address is not counted.
abbrev pub password_ways : Option User → ℕ
password_ways none = 0
password_ways (some u) = if is_some u.password_hash then 1 else 0

abbrev pub ways_in : ℕ → OauthStore → ℕ
ways_in user s =
    password_ways (first_user (with_id user) s.accounts.users) + count_links (of_user user) s.links

count_links-delete_links :
    (user : ℕ) (provider : Text) (ls : List Link)
    → count_links (of_user user) (delete_links (of_user_at user provider) ls)
        + count_links (of_user_at user provider) ls
      ≡ count_links (of_user user) ls
count_links-delete_links user provider [] = omega arith
count_links-delete_links user provider (l ∷ ls) =
    ground (arith, count_links-delete_links user provider ls)

module _ (lower : Text → Text) (user : ℕ) (path : Text) (s : OauthStore) (u : User)
    (found : first_user (with_id user) s.accounts.users ≡ some u) where
  -- Take an account with a way in, and with one linked identity at most at the provider. Whatever unlinking
  -- answers, the account has a way in afterwards.
  pub unlink_keeps_a_way :
      count_links (of_user_at user (lower path)) s.links ≤ 1
      → 1 ≤ ways_in user s
      → 1 ≤ ways_in user (unlink_provider lower (λ _. true) user path s).1
  unfolding unlink_provider
  unlink_keeps_a_way single h =
      ground (arith, found, count_links-delete_links user (lower path) s.links)

  -- Take an account without a password that has two or more identities linked, all of them at one provider.
  -- Unlinking that provider succeeds, and the account is left with neither a password nor a linked
  -- identity.
  pub unlink_locks_out :
      u.password_hash ≡ none
      → 2 ≤ count_links (of_user_at user (lower path)) s.links
      → count_links (of_user user) s.links ≡ count_links (of_user_at user (lower path)) s.links
      → ((unlink_provider lower (λ _. true) user path s).0 ≡ ok tt)
        × (first_user
              (with_id user)
              (unlink_provider lower (λ _. true) user path s).1.accounts.users
            ≡ some u)
        × (count_links (of_user user) (unlink_provider lower (λ _. true) user path s).1.links ≡ 0)
  unfolding unlink_provider
  unlink_locks_out no_password two only =
      let gone = count_links-delete_links user (lower path) s.links in
      (ground (arith, found), ground (arith, found), ground (arith, found, gone))

-- ===== src/Server/Auth/Session.antt =====
-- Refresh tokens and access tokens of apps/server/src/api/auth.rs.
use free_box.Prelude.{
  ℕ, ◌+◌, ◌≤◌, ◌<◌, ◌≡◌, ◌≢◌, ◌⊎◌, inl, inr, Bool-cases, ==_iff, refl, Bool, true, false, not, ◌&&◌,
  none, some, List, [], ◌∷◌, ◌++◌, bytes_eq, bytes_eq-ne, ◌==◌, arith,
}
use free_box.Outcome.{ok, err}
use free_box.Server.Error.{unauthorized}
use free_box.Server.Files.Keys.{Text, codes}
use free_box.Server.Auth.{Services, RefreshToken, Accounts, Config, new_claims, has_token}
use free_box.Server.Auth.Handlers.{
  issued, with_token, delete_tokens, find_token, is_live, issue_token_pair, refresh, require_auth,
  logout,
}

abbrev pub calm : ℕ → Bool
calm k = true

has_token-delete_tokens :
    (token : Text) (p : RefreshToken → Bool) (rs : List RefreshToken)
    → has_token token rs ≡ false
    → has_token token (delete_tokens p rs) ≡ false
has_token-delete_tokens token p [] h = refl
has_token-delete_tokens token p (r ∷ rs) h = ground (arith, has_token-delete_tokens token p rs)

-- A token that was deleted while it was live is not live later.
find_token-delete_tokens :
    (now later : ℕ) (old : Text) (new : RefreshToken) (rs : List RefreshToken)
    → now ≤ later
    → bytes_eq new.token old ≡ false
    → find_token (is_live later old) (delete_tokens (is_live now old) rs ++ new ∷ []) ≡ none
find_token-delete_tokens now later old new [] h k = ground arith
find_token-delete_tokens now later old new (r ∷ rs) h k =
    ground (arith, find_token-delete_tokens now later old new rs h k)

delete_tokens-none :
    (p : RefreshToken → Bool) (rs : List RefreshToken)
    → find_token p rs ≡ none
    → delete_tokens p rs ≡ rs
delete_tokens-none p [] h = refl
delete_tokens-none p (r ∷ rs) h = ground (arith, delete_tokens-none p rs)

-- A row of this token, of the user and of anybody else.
abbrev pub owned_by : Text → ℕ → RefreshToken → Bool
owned_by token user r = bytes_eq r.token token && r.user_id == user

abbrev pub foreign : Text → ℕ → RefreshToken → Bool
foreign token owner r = bytes_eq r.token token && not (r.user_id == owner)

find_token-logged_out :
    (now owner : ℕ) (token : Text) (rs : List RefreshToken)
    → find_token (foreign token owner) rs ≡ none
    → find_token (is_live now token) (delete_tokens (owned_by token owner) rs) ≡ none
find_token-logged_out now owner token [] h = refl
find_token-logged_out now owner token (r ∷ rs) h =
    ground (arith, find_token-logged_out now owner token rs)

find_token-foreign :
    (user owner : ℕ) (token : Text) (rs : List RefreshToken)
    → user ≢ owner
    → find_token (foreign token owner) rs ≡ none
    → find_token (owned_by token user) rs ≡ none
find_token-foreign user owner token [] ne h = refl
find_token-foreign user owner token (r ∷ rs) ne h =
    ground (arith, find_token-foreign user owner token rs)

module _ (svc : Services) (cfg : Config) where
  -- The access token of a pair opens the middleware, as its user, until it expires.
  pub require_auth_lem :
      (now t user : ℕ) (username access : Text) (s : Accounts)
      → svc.encode (new_claims now user username cfg.jwt_access_ttl_secs) ≡ some access
      → t < now + cfg.jwt_access_ttl_secs
      → require_auth svc cfg t (some (codes "Bearer " ++ access)) s
        ≡ (ok (new_claims now user username cfg.jwt_access_ttl_secs), s)
  unfolding require_auth new_claims
  require_auth_lem now t user username access s encoded early =
      let c = new_claims now user username cfg.jwt_access_ttl_secs in
      rw (svc.all-encode c access encoded, svc.decode-encode t c access early encoded) refl

  -- `issue_token_pair` at an unused refresh token.
  pub issue_token_pair_lem :
      (now user : ℕ) (new username access : Text) (s : Accounts)
      → svc.encode (new_claims now user username cfg.jwt_access_ttl_secs) ≡ some access
      → has_token new s.tokens ≡ false
      → issue_token_pair svc cfg true now new user username s ≡ (
        ok (record { access_token = access; refresh_token = new; user_id = user }),
        with_token (issued now cfg.jwt_refresh_ttl_secs new user username) s,
      )
  unfolding issue_token_pair
  issue_token_pair_lem now user new username access s encoded unused = rw (encoded, unused) refl

  pub refresh_lem :
      (now : ℕ) (old new access : Text) (row : RefreshToken) (s : Accounts)
      → find_token (is_live now old) s.tokens ≡ some row
      → has_token new s.tokens ≡ false
      → svc.encode (new_claims now row.user_id row.username cfg.jwt_access_ttl_secs) ≡ some access
      → refresh svc cfg calm now new old s ≡ (
        ok (record { access_token = access; refresh_token = new; user_id = row.user_id }),
        with_token
            (issued now cfg.jwt_refresh_ttl_secs new row.user_id row.username)
            (record s { tokens = delete_tokens (is_live now old) s.tokens }),
      )
  unfolding refresh
  refresh_lem now old new access row s live unused encoded = rw live (
      issue_token_pair_lem now row.user_id new row.username access
        (record s { tokens = delete_tokens (is_live now old) s.tokens }) encoded
        (has_token-delete_tokens new (is_live now old) s.tokens unused))

  refresh_refused :
      (now : ℕ) (old new : Text) (s : Accounts)
      → find_token (is_live now old) s.tokens ≡ none
      → refresh svc cfg calm now new old s ≡ (err unauthorized, s)
  unfolding refresh
  refresh_refused now old new s gone =
      rw (gone, delete_tokens-none (is_live now old) s.tokens gone) refl

  -- A live refresh token is traded for a new pair of its user, if the new token is unused. From then on
  -- the old token is refused, at any later time and whatever token would be issued; and the access
  -- token opens the middleware as that user until it expires.
  pub refresh_rotates :
      (now later t : ℕ) (old new other access : Text) (row : RefreshToken) (s : Accounts)
      → find_token (is_live now old) s.tokens ≡ some row
      → has_token new s.tokens ≡ false
      → new ≢ old
      → now ≤ later
      → t < now + cfg.jwt_access_ttl_secs
      → svc.encode (new_claims now row.user_id row.username cfg.jwt_access_ttl_secs) ≡ some access
      → let after = (refresh svc cfg calm now new old s).1 in
        ((refresh svc cfg calm now new old s).0
          ≡ ok (record { access_token = access; refresh_token = new; user_id = row.user_id }))
        × (refresh svc cfg calm later other old after ≡ (err unauthorized, after))
        × (require_auth svc cfg t (some (codes "Bearer " ++ access)) after
            ≡ (ok (new_claims now row.user_id row.username cfg.jwt_access_ttl_secs), after))
  refresh_rotates now later t old new other access row s live unused ne h early encoded =
      let r = issued now cfg.jwt_refresh_ttl_secs new row.user_id row.username in
      let after = with_token r (record s { tokens = delete_tokens (is_live now old) s.tokens }) in
      let gone = find_token-delete_tokens now later old r s.tokens h (bytes_eq-ne new old ne) in
      rw (refresh_lem now old new access row s live unused encoded) (
        refl,
        refresh_refused later old other after gone,
        require_auth_lem now t row.user_id row.username access after encoded early,
      )

  -- Let the rows of a token belong to one user. If that user logs out with it, it is refused from then
  -- on; if somebody else does, nothing changes. The answer is the same.
  pub logout_lem :
      (now user owner : ℕ) (token other : Text) (s : Accounts)
      → find_token (foreign token owner) s.tokens ≡ none
      → let after = (logout calm user token s).1 in
        (logout calm user token s ≡ (ok tt, after))
        × (((user ≡ owner)
              × (refresh svc cfg calm now other token after ≡ (err unauthorized, after)))
            ⊎ ((user ≢ owner) × (after ≡ s)))
  unfolding logout
  logout_lem now user owner token other s alone = elim (Bool-cases (user == owner)) [
    | inl e ↦ (
      refl,
      inl (
        (==_iff user owner).0 e,
        refresh_refused now token other (logout calm user token s).1
            (rw ((==_iff user owner).0 e) (find_token-logged_out now owner token s.tokens alone)),
      ),
    )
    | inr e ↦ (
      refl,
      inr (
        ground arith,
        rw
            (delete_tokens-none (owned_by token user) s.tokens
              (find_token-foreign user owner token s.tokens (ground arith) alone))
            refl,
      ),
    )
  ]

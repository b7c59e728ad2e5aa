-- ===== src/Client/Session/Renewal.antt =====
-- `send_with_refresh` of apps/cli/src/client.rs against the handlers of apps/server/src/api/auth.rs.
use free_box.Prelude.{
  ℕ, ◌<◌, ◌≡◌, refl, true, false, inl, inr, Bool-cases, all, none, some, ◌++◌, arith,
}
use free_box.Outcome.{ok, err}
use free_box.Server.Error.{unauthorized}
use free_box.Server.Handler.{Handler, ◌>>=◌}
use free_box.Server.Files.Keys.{Text, codes, is_visible}
use free_box.Server.Auth.{
  Services, Config, Accounts, Claims, RefreshToken, AuthResponse, new_claims, has_token,
}
use free_box.Server.Auth.Handlers.{
  refresh, require_auth, find_token, is_live, issued, with_token, delete_tokens,
}
use free_box.Server.Auth.Session.{calm, refresh_lem, require_auth_lem}
use free_box.Client.Session.{Session, Request, send_with_refresh, refresh_session}

module _ (svc : Services) (cfg : Config) (now : ℕ) where
  -- A route behind the middleware, and the refresh route.
  abbrev pub behind : {A : Type 0} → (Claims → Handler Accounts A) → Request Accounts A
  behind next token = require_auth svc cfg now (some (codes "Bearer " ++ token)) >>= next

  abbrev pub refresh_route : Text → Request Accounts AuthResponse
  refresh_route new token = refresh svc cfg calm now new token

  refused_lem :
      (token : Text) (s : Accounts)
      → svc.decode now token ≡ none
      → require_auth svc cfg now (some (codes "Bearer " ++ token)) s ≡ (err unauthorized, s)
  unfolding require_auth
  refused_lem token s h = elim (Bool-cases (all is_visible token)) [
    | inl e ↦ rw (e, h) refl
    | inr e ↦ rw e refl
  ]

  -- Take a session whose access token is not accepted any more and whose refresh token is live. A request
  -- to any route behind the middleware is answered as that route answers the token's user, in the state
  -- after the refresh; and the session has the new pair of tokens. The calls answer, the session can be
  -- written, the new refresh token is unused and an access token is valid for some time.
  pub send_with_refresh-renews :
      {A : Type 0} (next : Claims → Handler Accounts A) (session : Session) (new access : Text)
      (row : RefreshToken) (s : Accounts)
      → svc.decode now session.access_token ≡ none
      → find_token (is_live now session.refresh_token) s.tokens ≡ some row
      → has_token new s.tokens ≡ false
      → 0 < cfg.jwt_access_ttl_secs
      → svc.encode (new_claims now row.user_id row.username cfg.jwt_access_ttl_secs) ≡ some access
      → let after = (refresh svc cfg calm now new session.refresh_token s).1 in
        let response =
          next (new_claims now row.user_id row.username cfg.jwt_access_ttl_secs) after in
        send_with_refresh (behind next) (refresh_route new) true session s ≡ (
          (
            ok response.0,
            record session { access_token = access; refresh_token = new; user_id = row.user_id },
          ),
          response.1,
        )
  unfolding send_with_refresh refresh_session
  send_with_refresh-renews next session new access row s refused live unused lasting encoded =
      let issued_row = issued now cfg.jwt_refresh_ttl_secs new row.user_id row.username in
      let after =
        with_token issued_row
          (record s { tokens = delete_tokens (is_live now session.refresh_token) s.tokens }) in
      let traded =
        refresh_lem svc cfg now session.refresh_token new access row s live unused encoded in
      let open_door =
        require_auth_lem svc cfg now now row.user_id row.username access after encoded
          (omega arith) in
      rw (refused_lem session.access_token s refused, traded, open_door) refl

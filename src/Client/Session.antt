-- ===== src/Client/Session.antt =====
-- apps/cli/src/client.rs and the parts of apps/cli/src/session.rs that it uses: a request with an access token,
-- and the refresh of the token.
pub mod Renewal
mod Tests
use free_box.Prelude.{ℕ, Bool, true, false, bytes_eq, if◌then◌else◌}
use free_box.Outcome.{Result, ok, err}
use free_box.Server.Error.{AppError, unauthorized}
use free_box.Server.Files.Keys.{Text, codes}
use free_box.Server.Auth.{AuthResponse}

pub record Session : Type 0 where
  pub access_token : Text
  pub refresh_token : Text
  pub server : Text
  pub username : Text
  pub user_id : ℕ

abbrev pub default_server : Text
default_server = codes "https://freebox.io"

unfoldable pub effective_server : Text → Session → Text
effective_server server_arg session =
    if bytes_eq server_arg default_server then session.server else server_arg

-- Why `refresh_session` gives no session.
pub data RefreshError : Type 0 where
  session_expired : AppError → RefreshError
  not_saved : RefreshError

abbrev pub renewed : Session → AuthResponse → Session
renewed session resp = record {
  access_token = resp.access_token;
  refresh_token = resp.refresh_token;
  server = session.server;
  username = session.username;
  user_id = resp.user_id;
}

-- A request with a bearer token, and what the server answers and becomes.
abbrev pub Request : Type 0 → Type 0 → Type 0
Request S A = Text → S → Result AppError A × S

abbrev pub updated :
    {S : Type 0}
    → Bool
    → Session
    → Result AppError AuthResponse × S
    → Result RefreshError Session × S
updated saves session (err e, s) = (err (session_expired e), s)
updated true session (ok resp, s) = (ok (renewed session resp), s)
updated false session (ok resp, s) = (err not_saved, s)

-- `saves` says whether the session file can be written.
unfoldable pub refresh_session :
    {S : Type 0} → Request S AuthResponse → Bool → Session → S → Result RefreshError Session × S
refresh_session refresh saves session s = updated saves session (refresh session.refresh_token s)

module _ {S A : Type 0} (build : Request S A) where
  abbrev pub retry :
      Session
      → Result RefreshError Session × S
      → (Result RefreshError (Result AppError A) × Session) × S
  retry old (err e, s) = ((err e, old), s)
  retry old (ok session, s) =
      let (r, after) = build session.access_token s in ((ok r, session), after)

  abbrev pub is_unauthorized : Result AppError A → Bool
  is_unauthorized (err unauthorized) = true
  is_unauthorized r = false

  -- The response, whatever its status, the session and the server afterwards.
  unfoldable pub send_with_refresh :
      Request S AuthResponse
      → Bool
      → Session
      → S
      → (Result RefreshError (Result AppError A) × Session) × S
  unfolding refresh_session
  send_with_refresh refresh saves session s =
      let (r, after) = build session.access_token s in
      if is_unauthorized r
      then retry session (refresh_session refresh saves session after)
      else ((ok r, session), after)

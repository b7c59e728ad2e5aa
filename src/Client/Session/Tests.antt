-- ===== src/Client/Session/Tests.antt =====
-- A session whose access token has expired, and the route that answers with the caller's claims.
use free_box.Prelude.{◌≡◌, refl, true, none, [], ◌∷◌, bytes_eq, arith}
use free_box.Outcome.{ok}
use free_box.Server.Handler.{pure}
use free_box.Server.Files.Keys.{codes}
use free_box.Server.Auth.{Accounts, RefreshToken, new_claims}
use free_box.Server.Auth.Handlers.{refresh}
use free_box.Server.Auth.Session.{calm}
use free_box.Server.Auth.Toy.{svc, cfg, alice, access, encoded}
use free_box.Client.Session.{Session, send_with_refresh}
use free_box.Client.Session.Renewal.{behind, refresh_route, send_with_refresh-renews}

abbrev session : Session
session = record {
  access_token = codes "expired";
  refresh_token = codes "first";
  server = codes "https://example.org";
  username = alice;
  user_id = 5;
}

abbrev row : RefreshToken
row = record { token = codes "first"; user_id = 5; username = alice; expires_at = 3000 }

abbrev accounts : Accounts
accounts = record { users = []; bundles = λ j. none; tokens = row ∷ [] }

send_with_refresh-renews_example :
    let after = (refresh svc cfg calm 1000 (codes "second") (codes "first") accounts).1 in
    send_with_refresh
      (behind svc cfg 1000 (λ c. pure c.sub))
      (refresh_route svc cfg 1000 (codes "second"))
      true
      session
      accounts
    ≡ (
      (
        ok (ok 5),
        record session { access_token = access; refresh_token = codes "second"; user_id = 5 },
      ),
      after,
    )
unfolding bytes_eq new_claims
send_with_refresh-renews_example =
    send_with_refresh-renews svc cfg 1000 (λ c. pure c.sub) session (codes "second") access row
      accounts refl refl refl (omega arith) encoded

-- ===== src/Server/Auth/Tests.antt =====
-- The handlers of apps/server/src/api/auth.rs at concrete inputs. The stand-in for the hash is the
-- password.
use free_box.Prelude.{ℕ, ◌≡◌, refl, false, none, some, [], ◌∷◌, ◌++◌, bytes_eq, arith, false≢true}
use free_box.Outcome.{ok, err}
use free_box.Server.Error.{unauthorized}
use free_box.Server.Files.Keys.{Text, codes}
use free_box.Crypto.Toy.{toy_ed, toy_curve}
use free_box.Crypto.Keys.{PrekeyBundle, from_bytes, generate}
use free_box.Crypto.Keys.Generation.{validate_public-generate}
use free_box.Server.Auth.{
  RefreshToken, Accounts, RegisterRequest, new_claims, validate_username, validate_email,
  validate_prekey_bundle,
}
use free_box.Server.Auth.Toy.{alice, cfg, access, svc, encoded}
use free_box.Server.Auth.Handlers.{register, login, refresh, require_auth}
use free_box.Server.Auth.Session.{calm, refresh_rotates}
use free_box.Server.Auth.Account.{IsValid, login-register}

abbrev bundle : PrekeyBundle
bundle = generate toy_ed toy_curve (from_bytes toy_ed (3 ∷ [])) 1 (4 ∷ []) 99 (λ i. i ∷ [])

abbrev request : RegisterRequest
request = record {
  username = alice;
  email = codes "alice@example.org";
  password_hash = 7 ∷ [];
  argon2_salt = 8 ∷ [];
  bundle_size = 300;
  prekey_bundle = some bundle;
}

bundle_valid : validate_prekey_bundle toy_ed (some bundle) ≡ ok bundle
unfolding validate_prekey_bundle
bundle_valid =
    rw
      (validate_public-generate toy_ed toy_curve (3 ∷ []) (4 ∷ []) 1 99 (λ i. i ∷ [])
        (omega arith)).0
      refl

valid : IsValid toy_ed request bundle
unfolding validate_username validate_email
valid = record {
  username = refl;
  email = refl;
  password = omega arith;
  salt = omega arith;
  size = omega arith;
  keys = bundle_valid;
}

abbrev nobody : Accounts
nobody = record { users = []; bundles = λ j. none; tokens = [] }

abbrev first : Text
first = codes "first"

abbrev second : Text
second = codes "second"

differ : bytes_eq first second ≡ false
unfolding bytes_eq
differ = refl

login-register_example :
    let made = register svc cfg toy_ed calm 1000 (8 ∷ []) 5 first request nobody in
    let session = login svc cfg calm 1000 second alice (7 ∷ []) made.1 in
    (made.0 ≡ ok (record { access_token = access; refresh_token = first; user_id = 5 }))
    × (session.0 ≡ ok (record { access_token = access; refresh_token = second; user_id = 5 }))
    × (require_auth svc cfg 1500 (some (codes "Bearer " ++ access)) session.1
        ≡ (ok (new_claims 1000 5 alice 900), session.1))
login-register_example =
    login-register svc cfg toy_ed 1000 1000 1500 (8 ∷ []) 5 first second access access (7 ∷ [])
      request bundle nobody valid refl refl refl refl differ encoded encoded (omega arith)

abbrev user : ℕ
user = 5

abbrev row : RefreshToken
row = record { token = first; user_id = 5; username = alice; expires_at = 3000 }

abbrev signed_in : Accounts
signed_in = record nobody { tokens = row ∷ [] }

refresh_rotates_example :
    let after = (refresh svc cfg calm 1000 second first signed_in).1 in
    ((refresh svc cfg calm 1000 second first signed_in).0
      ≡ ok (record { access_token = access; refresh_token = second; user_id = 5 }))
    × (refresh svc cfg calm 1001 (9 ∷ []) first after ≡ (err unauthorized, after))
    × (require_auth svc cfg 1500 (some (codes "Bearer " ++ access)) after
        ≡ (ok (new_claims 1000 5 alice 900), after))
unfolding bytes_eq
refresh_rotates_example =
    refresh_rotates svc cfg 1000 1001 1500 first second (9 ∷ []) access row signed_in refl refl
      (λ h. false≢true (cc h)) (omega arith) (omega arith) encoded

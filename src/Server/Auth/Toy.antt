-- ===== src/Server/Auth/Toy.antt =====
-- Stand-ins for the services of apps/server/src/api/auth.rs: the hash of a password is the password, and there
-- is one access token, for one set of claims.
use free_box.Prelude.{
  ◌≡◌, refl, Bool, true, false, none, some, bytes_eq, bytes_eq_refl, if◌then◌else◌, arith, ◌==◌,
  ◌&&◌, bytes_eq_sound,
}
use free_box.Server.Files.Keys.{Text, codes}
use free_box.Server.Auth.{Claims, Services, Config, new_claims}

abbrev pub alice : Text
alice = codes "alice"

abbrev pub cfg : Config
cfg = record { jwt_access_ttl_secs = 900; jwt_refresh_ttl_secs = 2592000 }

abbrev pub claims : Claims
claims = new_claims 1000 5 alice 900

abbrev matches : Claims → Bool
matches c = c.sub == 5 && (bytes_eq c.username alice && (c.exp == 1900 && c.iat == 1000))

matches_sound : (c : Claims) → matches c ≡ true → claims ≡ c
unfolding new_claims
matches_sound c h = ground (arith, bytes_eq_sound c.username alice)

abbrev pub access : Text
access = codes "token"

pub given : (b : Bool) (x y : Text) → (if b then some x else none) ≡ some y → (b ≡ true) × (x ≡ y)
given true x y h = (refl, cc h)
given false x y h = cc h

pub decoded :
    (c : Claims) (token : Text)
    → (if matches c then some access else none) ≡ some token
    → (if bytes_eq token access then some claims else none) ≡ some c
decoded c token h =
    let (good, same) = given (matches c) access token h in
    rw (← same, bytes_eq_refl access, matches_sound c good) refl

pub verified :
    (password stored : Text)
    → some password ≡ some stored
    → some (bytes_eq password stored) ≡ some true
verified password stored h =
    let same : password ≡ stored = cc h in rw (same, bytes_eq_refl stored) refl

abbrev pub svc : Services
svc = record {
  hash = λ salt password. some password;
  verify = λ password stored. some (bytes_eq password stored);
  encode = λ c. if matches c then some access else none;
  decode = λ now token. if bytes_eq token access then some claims else none;
  verify-hash = λ salt password stored h. verified password stored h;
  all-encode = λ c token h. rw (← (given (matches c) access token h).1) refl;
  decode-encode = λ now c token early h. decoded c token h;
}

pub encoded : svc.encode claims ≡ some access
unfolding new_claims bytes_eq
encoded = refl

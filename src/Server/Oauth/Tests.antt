-- ===== src/Server/Oauth/Tests.antt =====
-- The handlers of apps/server/src/api/oauth.rs at concrete inputs: one provider, one identity at it, and the
-- stand-ins of Server/Auth/Toy.antt.
use free_box.Prelude.{
  ℕ, ◌+◌, ◌-◌, ◌≡◌, refl, ap, true, false, not, Option, none, some, List, [], ◌∷◌, ◌++◌, replicate,
  ◌==◌, all, bytes_eq, if◌then◌else◌, ltb, arith,
}
use free_box.Prelude.Digits.{digits_be}
use free_box.Outcome.{ok, err}
use free_box.Server.Error.{conflict, unauthorized}
use free_box.Server.Files.Keys.{Text, UuidText, codes, to_string}
use free_box.Server.Auth.{User}
use free_box.Server.Auth.Toy.{cfg, svc, alice, access, encoded}
use free_box.Server.Oauth.{
  with_id, count_links, of_user, Link, OauthState, OauthStore, Profile, UuidCodec, revive,
  first_user, with_email, first_link, is_identity,
}
use free_box.Server.Oauth.Provider.{
  ProviderMeta, Web, GithubUser, github, provider_meta, github_profile,
}
use free_box.Server.Oauth.Provider.Fetch.{fetch_user_profile}
use free_box.Texts.Trim.{trim}
use free_box.Server.Oauth.Provider.Names.{oauth_email, unique_oauth_username}
use free_box.Server.Oauth.Resolve.{Draws, find_or_create_user, new_link, new_user}
use free_box.Server.Oauth.Resolve.Reactivation.{calm, reactivation_evaded}
use free_box.Server.Oauth.Resolve.Again.{same_identity_same_account}
use free_box.Server.Oauth.Flow.{
  Oauth, OauthClient, ProviderConfig, build_oauth_client, callback, link_provider, pending,
}
use free_box.Server.Oauth.Flow.States.{callback_once}
use free_box.Server.Oauth.Flow.Links.{IsServed, IsAnswered, callback-link_provider}
use free_box.Server.Oauth.Manage.{unlink_provider}
use free_box.Server.Oauth.Manage.Lockout.{unlink_locks_out}

head_same : (a b : ℕ) (xs ys : Text) → a ∷ xs ≡ b ∷ ys → a ≡ b
head_same a b xs ys h = cc

-- An id is written as a number above the colon's code and 35 zeros.
abbrev uuid : UuidText
uuid = record {
  text = λ id. (id + 59) ∷ replicate 35 0;
  length-text = λ id. refl;
  text_injective =
      λ a b h. omega (arith, head_same (a + 59) (b + 59) (replicate 35 0) (replicate 35 0) h);
}

abbrev read_id : Text → Option ℕ
read_id [] = none
read_id (c ∷ cs) = some (c - 59)

without_colon : (id : ℕ) → all (λ c. not (c == b':')) (uuid.text id) ≡ true
without_colon id = ground arith

abbrev codec : UuidCodec
codec = record {
  uuid = uuid;
  parse_str = read_id;
  parse_str-text = λ id. ap some (omega arith);
  no_colon = without_colon;
}

abbrev address : Text
address = codes "alice@example.org"

abbrev github_user : GithubUser
github_user = record { id = 42; login = alice; email = some address; avatar_url = none }

abbrev web : Web
web = record {
  get_github = λ url token. some github_user;
  get_google = λ url token. none;
  get_microsoft = λ url token. none;
  get_facebook = λ url token. none;
  get_apple_jwks = none;
  decode_header = λ token. none;
  is_rsa_key = λ key. false;
  decode_id_token = λ token key. none;
}

abbrev config : ProviderConfig
config = record {
  client_id = codes "id";
  client_secret = codes "secret";
  redirect_uri = codes "https://example.org/cb";
}

abbrev oauth : Oauth
oauth = record {
  codec = codec;
  web = web;
  to_lowercase = λ text. text;
  configured = λ provider. if bytes_eq provider github then some config else none;
  is_url = λ text. true;
  authorize_url = λ client scopes verifier state. client.auth_url ++ state;
  exchange_code = λ client code verifier. some (codes "gh", none);
  reactivation_max_age_days = 30;
}

abbrev person : Profile
person = record {
  provider_user_id = codes "42";
  email = some address;
  username = some alice;
  avatar_url = none;
}

abbrev account : User
account = record {
  id = 5;
  username = alice;
  email = address;
  password_hash = some (7 ∷ []);
  argon2_salt = some (8 ∷ []);
  deleted_at = none;
}

abbrev with_users : List User → List Link → List OauthState → OauthStore
with_users users links states = record {
  accounts = record { users = users; bundles = λ j. none; tokens = [] };
  links = links;
  states = states;
  audit = [];
}

abbrev draws : Draws
draws = record { now = 1000; user_id = 6; name_id = 1; email_id = 2 }

abbrev state : Text
state = codes "csrf"

meta_github :
    provider_meta github
    ≡ ok (record {
      auth_url = codes "https://github.com/login/oauth/authorize";
      token_url = codes "https://github.com/login/oauth/access_token";
      scopes = codes "read:user" ∷ codes "user:email" ∷ [];
      profile_url = codes "https://api.github.com/user";
    })
unfolding provider_meta bytes_eq
meta_github = refl

abbrev later : Draws
later = record { now = 2000; user_id = 9; name_id = 3; email_id = 4 }

abbrev renamed : Profile
renamed = record person { email = none; username = none }

abbrev bob : User
bob = record account { id = 7; username = codes "bob"; email = codes "bob@example.org" }

abbrev bob_only : OauthStore
bob_only = with_users (bob ∷ []) [] []

same_identity_same_account_example :
    let once = find_or_create_user uuid calm 30 draws github person bob_only in
    let twice = find_or_create_user uuid calm 30 later github renamed once.1 in
    (once.0 ≡ ok (6, unique_oauth_username uuid 1 person))
    × (twice.0 ≡ once.0)
    × (once.1.accounts.users ≡ bob ∷ new_user uuid draws github person ∷ [])
    × (twice.1.accounts ≡ once.1.accounts)
unfolding bytes_eq oauth_email unique_oauth_username trim
same_identity_same_account_example =
    same_identity_same_account uuid 30 github draws later person renamed bob_only refl refl refl
      refl refl

abbrev deleted : User
deleted = record account { deleted_at = some 1000 }

abbrev late : Draws
late = record { now = 5000000; user_id = 6; name_id = 1; email_id = 2 }

abbrev padded : Text
padded = b' ' ∷ address

abbrev near_person : Profile
near_person = record person { email = some padded }

abbrev deleted_only : OauthStore
deleted_only = with_users (deleted ∷ []) [] []

reactivation_evaded_example :
    let after = (find_or_create_user uuid calm 30 late github near_person deleted_only).1 in
    (find_or_create_user uuid calm 30 late github person deleted_only
      ≡ (err conflict, deleted_only))
    × ((find_or_create_user uuid calm 30 late github near_person deleted_only).0 ≡ ok (5, alice))
    × (first_user (with_email address) after.accounts.users ≡ some (revive deleted))
    × (after.links ≡ new_link 5000000 5 github near_person ∷ [])
    × (after.audit ≡ [])
unfolding bytes_eq trim
reactivation_evaded_example =
    reactivation_evaded uuid 30 late github deleted 1000 deleted_only refl refl (omega arith)
      (omega arith) person near_person padded refl refl refl refl refl refl refl

abbrev waiting : OauthStore
waiting = with_users (account ∷ []) [] (pending 900 state (codes "verifier") github ∷ [])

abbrev token : Text
token = codes "refresh"

callback_once_example :
    callback oauth svc cfg
      (λ k. true)
      later
      token
      github
      (codes "other")
      state
      (callback oauth svc cfg (λ k. ltb k 3) draws token github (codes "code") state waiting).1
    ≡ (
      err unauthorized,
      (callback oauth svc cfg (λ k. ltb k 3) draws token github (codes "code") state waiting).1,
    )
callback_once_example =
    callback_once oauth svc cfg (λ k. ltb k 3) draws later token token github github (codes "code")
      (codes "other") state waiting refl (omega arith)

abbrev github_meta : ProviderMeta
github_meta = record {
  auth_url = codes "https://github.com/login/oauth/authorize";
  token_url = codes "https://github.com/login/oauth/access_token";
  scopes = codes "read:user" ∷ codes "user:email" ∷ [];
  profile_url = codes "https://api.github.com/user";
}

abbrev client : OauthClient
client = record {
  config = config;
  auth_url = github_meta.auth_url;
  token_url = github_meta.token_url;
}

served : IsServed oauth github client github_meta
unfolding bytes_eq provider_meta build_oauth_client
served = record { config = config; configured = refl; known = refl; built = refl }

answered : IsAnswered oauth github (codes "code") (codes "verifier") client github_meta person
unfolding bytes_eq fetch_user_profile github_profile to_string digits_be
answered = record { access = codes "gh"; id_token = none; exchanged = refl; fetched = refl }

abbrev alone : OauthStore
alone = with_users (account ∷ []) [] []

callback-link_provider_example :
    let asked = link_provider oauth calm 900 5 (codes "verifier") state github alone in
    let done = callback oauth svc cfg calm draws token github (codes "code") state asked.1 in
    (asked.0 ≡ ok (client.auth_url ++ state))
    × (done.0 ≡ ok (record { access_token = access; refresh_token = token; user_id = 5 }))
    × (first_link (is_identity github (codes "42")) done.1.links
        ≡ some (new_link 1000 5 github person))
callback-link_provider_example =
    callback-link_provider oauth svc cfg github client github_meta served 900 draws
      (codes "verifier") state token (codes "code") access person account alone refl refl
      (omega arith) answered refl refl refl encoded

abbrev linked : OauthStore
linked = with_users (account ∷ []) (new_link 1000 5 github person ∷ []) []

abbrev other_person : Profile
other_person = record person { provider_user_id = codes "43" }

abbrev no_password : User
no_password = record account { password_hash = none; argon2_salt = none }

abbrev twice_linked : OauthStore
twice_linked =
    with_users (no_password ∷ [])
      (new_link 1000 5 github person ∷ new_link 1001 5 github other_person ∷ []) []

unlink_locks_out_example :
    ((unlink_provider (λ text. text) (λ _. true) 5 github twice_linked).0 ≡ ok tt)
    × (first_user
          (with_id 5)
          (unlink_provider (λ text. text) (λ _. true) 5 github twice_linked).1.accounts.users
        ≡ some no_password)
    × (count_links
          (of_user 5)
          (unlink_provider (λ text. text) (λ _. true) 5 github twice_linked).1.links
        ≡ 0)
unfolding bytes_eq
unlink_locks_out_example =
    unlink_locks_out (λ text. text) 5 github twice_linked no_password refl refl (omega arith) refl

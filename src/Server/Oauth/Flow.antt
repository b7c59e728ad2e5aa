-- ===== src/Server/Oauth/Flow.antt =====
-- apps/server/src/api/oauth.rs: `initiate`, `link_provider` and `callback`.
pub mod Links
pub mod States
use free_box.Prelude.{
  ℕ, zero, suc, ◌+◌, ◌*◌, Bool, true, false, not, ◌&&◌, ◌||◌, Option, none, some, List, [], ◌∷◌,
  ◌++◌, bytes_eq, ltb, leb, ◌==◌, if◌then◌else◌,
}
use free_box.Outcome
use free_box.Outcome.{Result, ok, err, reject_if, ok_or}
use free_box.Server.Error.{AppError, internal, unauthorized, not_found, conflict}
use free_box.Server.Handler.{Handler, pure, fail, lift, gets, require, modify, await, ◌>>=◌, ◌>>◌}
use free_box.Server.Files.Keys.{Text, codes}
use free_box.Server.Auth.{Services, Config, AuthResponse, User}
use free_box.Server.Auth.Handlers.{issue_token_pair, strip_prefix}
use free_box.Server.Oauth.{
  Link, OauthState, OauthStore, Profile, UuidCodec, on_accounts, first_user, with_id, first_link,
  is_identity, count_links, of_user_at,
}
use free_box.Server.Oauth.Provider.{ProviderMeta, Web, provider_meta}
use free_box.Server.Oauth.Provider.Fetch.{fetch_user_profile}
use free_box.Server.Oauth.Resolve.{Draws, new_link, find_or_create_user}

pub record ProviderConfig : Type 0 where
  pub client_id : Text
  pub client_secret : Text
  pub redirect_uri : Text

pub record OauthClient : Type 0 where
  pub config : ProviderConfig
  pub auth_url : Text
  pub token_url : Text

-- The configuration, and what the crates `oauth2` and `url`, Unicode's lower case and the network do.
pub record Oauth : Type 0 where
  pub codec : UuidCodec
  pub web : Web
  pub to_lowercase : Text → Text
  -- `state.oauth.get`
  pub configured : Text → Option ProviderConfig
  pub is_url : Text → Bool
  -- client, scopes, PKCE verifier, CSRF state: `authorize_url`
  pub authorize_url : OauthClient → List Text → Text → Text → Text
  -- client, code, PKCE verifier: the access token and the id token
  pub exchange_code : OauthClient → Text → Text → Option (Text × Option Text)
  pub reactivation_max_age_days : ℕ

unfoldable pub build_oauth_client :
    (Text → Bool) → ProviderConfig → ProviderMeta → Result AppError OauthClient
build_oauth_client is_url config m = Outcome.◌>>◌ (reject_if (not (is_url m.auth_url)) internal) (
    Outcome.◌>>◌ (reject_if (not (is_url m.token_url)) internal) (
      Outcome.◌>>◌ (reject_if (not (is_url config.redirect_uri)) internal)
        (ok (record { config = config; auth_url = m.auth_url; token_url = m.token_url }))))

-- five minutes
abbrev pub state_ttl : ℕ
state_ttl = 5 * 60

abbrev pub has_state : Text → List OauthState → Bool
has_state state [] = false
has_state state (r ∷ rs) = bytes_eq r.state state || has_state state rs

-- The INSERT into `oauth_states`, and its primary key.
abbrev pub insert_state : OauthState → Handler OauthStore (Unit {0})
insert_state r = do
  taken ← gets (λ s. has_state r.state s.states)
  lift (reject_if taken internal)
  modify (λ s. record s { states = s.states ++ r ∷ [] })

abbrev pub pending : ℕ → Text → Text → Text → OauthState
pending now state verifier provider = record {
  state = state;
  pkce_verifier = verifier;
  provider = provider;
  expires_at = now + state_ttl;
}

-- `DELETE … WHERE state = $1 AND expires_at > NOW() RETURNING …`
abbrev pub is_open : ℕ → Text → OauthState → Bool
is_open now state r = bytes_eq r.state state && ltb now r.expires_at

abbrev pub find_state : (OauthState → Bool) → List OauthState → Option OauthState
find_state p [] = none
find_state p (r ∷ rs) = if p r then some r else find_state p rs

abbrev pub delete_states : (OauthState → Bool) → List OauthState → List OauthState
delete_states p [] = []
delete_states p (r ∷ rs) = let rest = delete_states p rs in if p r then rest else r ∷ rest

-- a split at the first colon
abbrev pub push : ℕ → Option (Text × Text) → Option (Text × Text)
push c none = none
push c (some (head, tail)) = some (c ∷ head, tail)

unfoldable pub split_once : Text → Option (Text × Text)
split_once [] = none
split_once (c ∷ cs) = let rest = split_once cs in if c == b':' then some ([], cs) else push c rest

-- the last two of three parts, `splitn(3, ':')`
abbrev pub after_first : Option (Text × Text) → Option (Text × Text)
after_first none = none
after_first (some (head, tail)) = split_once tail

abbrev pub starts_with : Text → Text → Bool
starts_with prefix text = elim (strip_prefix prefix text) [ none ↦ false | some rest ↦ true ]

module _ (oauth : Oauth) where
  -- The user of a link flow, or nobody in a login flow.
  abbrev pub link_owner : Text → Option (Text × Text) → Result AppError (Option ℕ)
  link_owner provider none = err unauthorized
  link_owner provider (some (id, stored)) =
      if bytes_eq stored provider
      then Outcome.◌>>=◌ (ok_or (oauth.codec.parse_str id) internal) (λ user. ok (some user))
      else err unauthorized

  unfoldable pub flow_of : Text → Text → Result AppError (Option ℕ)
  unfolding split_once strip_prefix
  flow_of stored_provider provider =
      if starts_with (codes "link:") stored_provider
      then link_owner provider (after_first (split_once stored_provider))
      else if bytes_eq stored_provider provider
      then ok none
      else err unauthorized

  unfoldable pub initiate : Bool → ℕ → Text → Text → Text → Handler OauthStore Text
  unfolding build_oauth_client
  initiate answers now verifier state path = do
    let provider = oauth.to_lowercase path
    config ← require (oauth.configured provider) not_found
    m ← lift (provider_meta provider)
    client ← lift (build_oauth_client oauth.is_url config m)
    let url = oauth.authorize_url client m.scopes verifier state
    await answers
    insert_state (pending now state verifier provider)
    pure url

  -- `link:{user}:{provider}`
  abbrev pub link_marker : ℕ → Text → Text
  link_marker user provider = codes "link:" ++ oauth.codec.uuid.text user ++ b':' ∷ provider

  unfoldable pub link_provider : (ℕ → Bool) → ℕ → ℕ → Text → Text → Text → Handler OauthStore Text
  unfolding build_oauth_client
  link_provider io now user verifier state path = do
    let provider = oauth.to_lowercase path
    config ← require (oauth.configured provider) not_found
    m ← lift (provider_meta provider)
    await (io 0)
    already_linked ← gets (λ s. count_links (of_user_at user provider) s.links)
    lift (reject_if (ltb 0 already_linked) conflict)
    client ← lift (build_oauth_client oauth.is_url config m)
    let url = oauth.authorize_url client m.scopes verifier state
    await (io 1)
    insert_state (pending now state verifier (link_marker user provider))
    pure url

  -- the check of an identity that is linked already, and the INSERT of one that is not, whose user has
  -- to be there
  abbrev pub attach : Bool → ℕ → ℕ → Text → Profile → Option Link → Handler OauthStore (Unit {0})
  attach answers now user provider p (some other) =
      if other.user_id == user then pure tt else fail conflict
  attach answers now user provider p none = do
    await answers
    owner ← gets (λ s. first_user (with_id user) s.accounts.users)
    _ ← require owner internal
    modify (λ s. record s { links = s.links ++ new_link now user provider p ∷ [] })

  module _ (svc : Services) (cfg : Config) where
    abbrev pub link_flow :
        (ℕ → Bool) → Draws → Text → Text → Profile → ℕ → Handler OauthStore AuthResponse
    link_flow io d token provider p user = do
      await (io 0)
      existing ← gets (λ s. first_link (is_identity provider p.provider_user_id) s.links)
      attach (io 1) d.now user provider p existing
      await (io 2)
      found ← gets (λ s. first_user (with_id user) s.accounts.users)
      row ← require found internal
      on_accounts (issue_token_pair svc cfg (io 3) d.now token user row.username)

    abbrev pub login_flow :
        (ℕ → Bool) → Draws → Text → Text → Profile → Handler OauthStore AuthResponse
    login_flow io d token provider p = do
      user ← find_or_create_user oauth.codec.uuid io oauth.reactivation_max_age_days d provider p
      on_accounts (issue_token_pair svc cfg (io 8) d.now token user.0 user.1)

    abbrev pub sign_in_as :
        (ℕ → Bool) → Draws → Text → Text → Profile → Option ℕ → Handler OauthStore AuthResponse
    sign_in_as io d token provider p (some user) = link_flow io d token provider p user
    sign_in_as io d token provider p none = login_flow io d token provider p

    -- `callback` once it has the row of the state
    abbrev pub redeem :
        (ℕ → Bool)
        → Draws
        → Text
        → Text
        → Text
        → Option OauthState
        → Handler OauthStore AuthResponse
    redeem io d token provider code found = do
      stored ← require found unauthorized
      flow ← lift (flow_of stored.provider provider)
      config ← require (oauth.configured provider) not_found
      m ← lift (provider_meta provider)
      client ← lift (build_oauth_client oauth.is_url config m)
      tokens ← require (oauth.exchange_code client code stored.pkce_verifier) internal
      p ← lift (fetch_user_profile oauth.web provider tokens.0 tokens.1 m)
      sign_in_as (λ k. io (k + 1)) d token provider p flow

    unfoldable pub callback :
        (ℕ → Bool) → Draws → Text → Text → Text → Text → Handler OauthStore AuthResponse
    unfolding flow_of build_oauth_client fetch_user_profile find_or_create_user issue_token_pair
    callback io d token path code state = do
      await (io 0)
      found ← gets (λ s. find_state (is_open d.now state) s.states)
      modify (λ s. record s { states = delete_states (is_open d.now state) s.states })
      redeem io d token (oauth.to_lowercase path) code found

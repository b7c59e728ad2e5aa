-- ===== src/Server/Oauth/Flow/Links.antt =====
-- Linking a provider in apps/server/src/api/oauth.rs: from `link_provider` to `callback`.
use free_box.Prelude.{
  ℕ, ◌+◌, ◌<◌, ◌≡◌, refl, Bool, true, false, not, Option, none, some, List, [], ◌∷◌, ◌++◌,
  bytes_eq_refl, ◌==◌, all, arith,
}
use free_box.Outcome.{ok}
use free_box.Server.Files.Keys.{Text}
use free_box.Server.Auth.{Services, Config, User, new_claims, has_token}
use free_box.Server.Auth.Handlers.{strip_prefix, issued, with_token}
use free_box.Server.Auth.Session.{issue_token_pair_lem}
use free_box.Server.Oauth.{
  OauthState, OauthStore, Profile, first_user, with_id, first_link, is_identity, count_links,
  of_user_at,
}
use free_box.Server.Oauth.Provider.{ProviderMeta, provider_meta}
use free_box.Server.Oauth.Provider.Fetch.{fetch_user_profile}
use free_box.Server.Oauth.Resolve.{Draws, new_link}
use free_box.Server.Oauth.Resolve.Again.{first_link-append}
use free_box.Server.Oauth.Flow.{
  Oauth, ProviderConfig, OauthClient, build_oauth_client, state_ttl, has_state, pending, is_open,
  find_state, delete_states, split_once, flow_of, link_marker, link_provider, link_flow, redeem,
  callback,
}

split_once-append :
    (head tail : Text)
    → all (λ c. not (c == b':')) head ≡ true
    → split_once (head ++ b':' ∷ tail) ≡ some (head, tail)
unfolding split_once
split_once-append [] tail h = refl
split_once-append (c ∷ cs) tail h = ground (arith, split_once-append cs tail)

-- The marker that `link_provider` writes is read back as its user.
flow_of-link_marker :
    (oauth : Oauth) (user : ℕ) (provider : Text)
    → flow_of oauth (link_marker oauth user provider) provider ≡ ok (some user)
unfolding flow_of split_once strip_prefix
flow_of-link_marker oauth user provider =
    let codec = oauth.codec in
    rw
      (
        split_once-append (codec.uuid.text user) provider (codec.no_colon user),
        bytes_eq_refl provider,
        codec.parse_str-text user,
      )
      refl

find_state-append :
    (now : ℕ) (r : OauthState) (rs : List OauthState)
    → has_state r.state rs ≡ false
    → now < r.expires_at
    → find_state (is_open now r.state) (rs ++ r ∷ []) ≡ some r
find_state-append now r [] h k = rw (bytes_eq_refl r.state) (ground arith)
find_state-append now r (q ∷ rs) h k = ground (arith, find_state-append now r rs)

-- The provider of a path is configured and known, and its URLs are well formed.
pub record IsServed (oauth : Oauth) (path : Text) (client : OauthClient) (m : ProviderMeta)
    : Type 0 where
  pub config : ProviderConfig
  pub configured : oauth.configured (oauth.to_lowercase path) ≡ some config
  pub known : provider_meta (oauth.to_lowercase path) ≡ ok m
  pub built : build_oauth_client oauth.is_url config m ≡ ok client

-- What the network answers to a code: an access token, an id token and a profile.
pub record IsAnswered (oauth : Oauth) (path code verifier : Text) (client : OauthClient)
    (m : ProviderMeta) (p : Profile) : Type 0 where
  pub access : Text
  pub id_token : Option Text
  pub exchanged : oauth.exchange_code client code verifier ≡ some (access, id_token)
  pub fetched : fetch_user_profile oauth.web (oauth.to_lowercase path) access id_token m ≡ ok p

abbrev pub with_state : OauthState → OauthStore → OauthStore
with_state r s = record s { states = s.states ++ r ∷ [] }

abbrev pub calm : ℕ → Bool
calm k = true

module _ (oauth : Oauth) (svc : Services) (cfg : Config) (path : Text) (client : OauthClient)
    (m : ProviderMeta) (served : IsServed oauth path client m) where
  link_provider_lem :
      (now user : ℕ) (verifier state : Text) (s : OauthStore)
      → count_links (of_user_at user (oauth.to_lowercase path)) s.links ≡ 0
      → has_state state s.states ≡ false
      → link_provider oauth calm now user verifier state path s ≡ (
        ok (oauth.authorize_url client m.scopes verifier state),
        with_state
            (pending now state verifier (link_marker oauth user (oauth.to_lowercase path)))
            s,
      )
  unfolding link_provider
  link_provider_lem now user verifier state s unlinked unused =
      rw (served.configured, served.known, unlinked, served.built, unused) refl

  link_flow_lem :
      (d : Draws) (token access : Text) (p : Profile) (u : User) (s : OauthStore)
      → first_link (is_identity (oauth.to_lowercase path) p.provider_user_id) s.links ≡ none
      → first_user (with_id u.id) s.accounts.users ≡ some u
      → has_token token s.accounts.tokens ≡ false
      → svc.encode (new_claims d.now u.id u.username cfg.jwt_access_ttl_secs) ≡ some access
      → link_flow oauth svc cfg calm d token (oauth.to_lowercase path) p u.id s ≡ (
        ok (record { access_token = access; refresh_token = token; user_id = u.id }),
        record s {
          links = s.links ++ new_link d.now u.id (oauth.to_lowercase path) p ∷ [];
          accounts =
              with_token (issued d.now cfg.jwt_refresh_ttl_secs token u.id u.username) s.accounts;
        },
      )
  link_flow_lem d token access p u s new found unused encoded =
      let issue =
        issue_token_pair_lem svc cfg d.now u.id token u.username access s.accounts encoded unused in
      rw (new, found, found, issue) refl

  redeem_lem :
      (d : Draws) (token code access : Text) (p : Profile) (u : User) (r : OauthState)
      (s : OauthStore)
      → r.provider ≡ link_marker oauth u.id (oauth.to_lowercase path)
      → IsAnswered oauth path code r.pkce_verifier client m p
      → first_link (is_identity (oauth.to_lowercase path) p.provider_user_id) s.links ≡ none
      → first_user (with_id u.id) s.accounts.users ≡ some u
      → has_token token s.accounts.tokens ≡ false
      → svc.encode (new_claims d.now u.id u.username cfg.jwt_access_ttl_secs) ≡ some access
      → redeem oauth svc cfg calm d token (oauth.to_lowercase path) code (some r) s ≡ (
        ok (record { access_token = access; refresh_token = token; user_id = u.id }),
        record s {
          links = s.links ++ new_link d.now u.id (oauth.to_lowercase path) p ∷ [];
          accounts =
              with_token (issued d.now cfg.jwt_refresh_ttl_secs token u.id u.username) s.accounts;
        },
      )
  redeem_lem d token code access p u r s marked answered new found unused encoded =
      rw
        (
          marked,
          flow_of-link_marker oauth u.id (oauth.to_lowercase path),
          served.configured,
          served.known,
          served.built,
          answered.exchanged,
          answered.fetched,
        )
        (link_flow_lem d token access p u s new found unused encoded)

  -- Take a user that has no link at a provider that is configured, and an identity at it that nobody has. The
  -- user asks to link the provider and, within five minutes, the callback arrives with the state and
  -- with a code that the provider answers. Then the callback signs in that user, and the identity is
  -- linked to that user.
  pub callback-link_provider :
      (now : ℕ) (d : Draws) (verifier state token code access : Text) (p : Profile) (u : User)
      (s : OauthStore)
      → count_links (of_user_at u.id (oauth.to_lowercase path)) s.links ≡ 0
      → has_state state s.states ≡ false
      → d.now < now + state_ttl
      → IsAnswered oauth path code verifier client m p
      → first_link (is_identity (oauth.to_lowercase path) p.provider_user_id) s.links ≡ none
      → first_user (with_id u.id) s.accounts.users ≡ some u
      → has_token token s.accounts.tokens ≡ false
      → svc.encode (new_claims d.now u.id u.username cfg.jwt_access_ttl_secs) ≡ some access
      → let asked = link_provider oauth calm now u.id verifier state path s in
        let done = callback oauth svc cfg calm d token path code state asked.1 in
        (asked.0 ≡ ok (oauth.authorize_url client m.scopes verifier state))
        × (done.0 ≡ ok (record { access_token = access; refresh_token = token; user_id = u.id }))
        × (first_link (is_identity (oauth.to_lowercase path) p.provider_user_id) done.1.links
            ≡ some (new_link d.now u.id (oauth.to_lowercase path) p))
  unfolding callback
  callback-link_provider now d verifier state token code access p u s unlinked free early answered
        new found unused encoded =
      let provider = oauth.to_lowercase path in
      let r = pending now state verifier (link_marker oauth u.id provider) in
      let asked = with_state r s in
      let row = find_state-append d.now r s.states free early in
      let cleared = record asked { states = delete_states (is_open d.now state) asked.states } in
      let redeemed =
        redeem_lem d token code access p u r cleared refl answered new found unused encoded in
      let linked =
        first_link-append (is_identity provider p.provider_user_id) (new_link d.now u.id provider p)
          s.links new (rw (bytes_eq_refl provider, bytes_eq_refl p.provider_user_id) refl) in
      rw (link_provider_lem now u.id verifier state s unlinked free, row, redeemed)
        (refl, refl, linked)

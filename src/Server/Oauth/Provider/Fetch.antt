-- ===== src/Server/Oauth/Provider/Fetch.antt =====
-- apps/server/src/api/oauth.rs: `fetch_user_profile` and the function of each provider.
use free_box.Prelude.{not, Option, none, some, List, [], ◌∷◌, bytes_eq, if◌then◌else◌}
use free_box.Outcome.{Result, ok, err, ok_or, reject_if, ◌>>=◌, ◌>>◌}
use free_box.Server.Error.{AppError, internal, unauthorized}
use free_box.Server.Files.Keys.{Text}
use free_box.Server.Oauth.{Profile}
use free_box.Server.Oauth.Provider.{
  ProviderMeta, Web, AppleJwk, match_provider, github_profile, google_profile, microsoft_profile,
  facebook_profile, apple_profile,
}

abbrev pub find_key : Text → List AppleJwk → Option AppleJwk
find_key kid [] = none
find_key kid (k ∷ ks) = if bytes_eq k.kid kid then some k else find_key kid ks

module _ (web : Web) where
  unfoldable pub fetch_github_profile : Text → ProviderMeta → Result AppError Profile
  fetch_github_profile access_token m = do
    user ← ok_or (web.get_github m.profile_url access_token) internal
    ok (github_profile user)

  unfoldable pub fetch_google_profile : Text → ProviderMeta → Result AppError Profile
  fetch_google_profile access_token m = do
    user ← ok_or (web.get_google m.profile_url access_token) internal
    ok (google_profile user)

  unfoldable pub fetch_microsoft_profile : Text → ProviderMeta → Result AppError Profile
  fetch_microsoft_profile access_token m = do
    user ← ok_or (web.get_microsoft m.profile_url access_token) internal
    ok (microsoft_profile user)

  unfoldable pub fetch_facebook_profile : Text → ProviderMeta → Result AppError Profile
  fetch_facebook_profile access_token m = do
    user ← ok_or (web.get_facebook m.profile_url access_token) internal
    ok (facebook_profile user)

  unfoldable pub fetch_apple_profile : Option Text → Result AppError Profile
  fetch_apple_profile id_token = do
    token ← ok_or id_token internal
    keys ← ok_or web.get_apple_jwks internal
    header ← ok_or (web.decode_header token) internal
    kid ← ok_or header internal
    jwk ← ok_or (find_key kid keys) internal
    reject_if (not (web.is_rsa_key jwk)) internal
    claims ← ok_or (web.decode_id_token token jwk) unauthorized
    ok (apple_profile claims)

  unfoldable pub fetch_user_profile :
      Text → Text → Option Text → ProviderMeta → Result AppError Profile
  unfolding fetch_github_profile fetch_google_profile fetch_microsoft_profile fetch_facebook_profile
      fetch_apple_profile
  fetch_user_profile provider access_token id_token m =
      match_provider provider (fetch_github_profile access_token m)
        (fetch_google_profile access_token m) (fetch_microsoft_profile access_token m)
        (fetch_apple_profile id_token) (fetch_facebook_profile access_token m) (err internal)

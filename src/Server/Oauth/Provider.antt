-- ===== src/Server/Oauth/Provider.antt =====
-- apps/server/src/api/oauth.rs: the providers, and the profiles that their replies are made into.
pub mod Fetch
pub mod Names
use free_box.Prelude.{
  ℕ, ◌+◌, Bool, true, false, not, ◌&&◌, ◌||◌, Option, none, some, List, [], ◌∷◌, ◌++◌, length, take,
  bytes_eq, leb, ltb, ◌==◌, if◌then◌else◌,
}
use free_box.Prelude.Digits.{digits_be}
use free_box.Outcome.{Result, ok, err, ok_or, ◌>>=◌}
use free_box.Server.Error.{AppError, internal, unauthorized, not_found}
use free_box.Server.Files.Keys.{to_string, Text, UuidText, codes}
use free_box.Server.Auth.{is_username_char}
use free_box.Server.Oauth.{Profile}

pub record ProviderMeta : Type 0 where
  pub auth_url : Text
  pub token_url : Text
  pub scopes : List Text
  pub profile_url : Text

abbrev pub github : Text
github = codes "github"

abbrev pub google : Text
google = codes "google"

abbrev pub microsoft : Text
microsoft = codes "microsoft"

abbrev pub apple : Text
apple = codes "apple"

abbrev pub facebook : Text
facebook = codes "facebook"

-- A `match` on the name of a provider.
abbrev pub match_provider {ℓ} : {A : Type ℓ} → Text → A → A → A → A → A → A → A
match_provider provider at_github at_google at_microsoft at_apple at_facebook other =
    if bytes_eq provider github
    then at_github
    else if bytes_eq provider google
    then at_google
    else if bytes_eq provider microsoft
    then at_microsoft
    else if bytes_eq provider apple
    then at_apple
    else if bytes_eq provider facebook
    then at_facebook
    else other

unfoldable pub provider_meta : Text → Result AppError ProviderMeta
provider_meta provider =
    match_provider provider
      (ok (record {
        auth_url = codes "https://github.com/login/oauth/authorize";
        token_url = codes "https://github.com/login/oauth/access_token";
        scopes = codes "read:user" ∷ codes "user:email" ∷ [];
        profile_url = codes "https://api.github.com/user";
      }))
      (ok (record {
        auth_url = codes "https://accounts.google.com/o/oauth2/v2/auth";
        token_url = codes "https://oauth2.googleapis.com/token";
        scopes = codes "openid" ∷ codes "email" ∷ codes "profile" ∷ [];
        profile_url = codes "https://www.googleapis.com/oauth2/v3/userinfo";
      }))
      (ok (record {
        auth_url = codes "https://login.microsoftonline.com/common/oauth2/v2.0/authorize";
        token_url = codes "https://login.microsoftonline.com/common/oauth2/v2.0/token";
        scopes = codes "openid" ∷ codes "email" ∷ codes "profile" ∷ codes "User.Read" ∷ [];
        profile_url = codes "https://graph.microsoft.com/v1.0/me";
      }))
      (ok (record {
        auth_url = codes "https://appleid.apple.com/auth/authorize";
        token_url = codes "https://appleid.apple.com/auth/token";
        scopes = codes "name" ∷ codes "email" ∷ [];
        profile_url = [];
      }))
      (ok (record {
        auth_url = codes "https://www.facebook.com/v19.0/dialog/oauth";
        token_url = codes "https://graph.facebook.com/v19.0/oauth/access_token";
        scopes = codes "email" ∷ codes "public_profile" ∷ [];
        profile_url = codes "https://graph.facebook.com/me?fields=id,name,email,picture";
      }))
      (err not_found)

-- What the providers reply, as serde reads it.
pub record GithubUser : Type 0 where
  pub id : ℕ
  pub login : Text
  pub email : Option Text
  pub avatar_url : Option Text

pub record GoogleUser : Type 0 where
  pub sub : Text
  pub email : Option Text
  pub name : Option Text
  pub picture : Option Text

pub record MicrosoftUser : Type 0 where
  pub id : Text
  pub display_name : Option Text
  pub mail : Option Text
  pub user_principal_name : Option Text

pub record FacebookUser : Type 0 where
  pub id : Text
  pub name : Option Text
  pub email : Option Text
  pub picture_url : Option Text

pub record AppleJwk : Type 0 where
  pub kid : Text
  pub n : Text
  pub e : Text

pub record AppleIdTokenClaims : Type 0 where
  pub sub : Text
  pub email : Option Text
  pub email_verified : Option Bool

-- The HTTP calls, at a profile URL and an access token, and the `jsonwebtoken` calls for Apple: an outcome
-- that is missing is a call that failed.
pub record Web : Type 0 where
  pub get_github : Text → Text → Option GithubUser
  pub get_google : Text → Text → Option GoogleUser
  pub get_microsoft : Text → Text → Option MicrosoftUser
  pub get_facebook : Text → Text → Option FacebookUser
  pub get_apple_jwks : Option (List AppleJwk)
  -- the `kid` of a token's header
  pub decode_header : Text → Option (Option Text)
  -- are `n` and `e` a key
  pub is_rsa_key : AppleJwk → Bool
  -- token and key: signature, expiry and issuer are checked
  pub decode_id_token : Text → AppleJwk → Option AppleIdTokenClaims

abbrev pub or_else {ℓ} : {A : Type ℓ} → Option A → Option A → Option A
or_else none o = o
or_else (some a) o = some a

unfoldable pub github_profile : GithubUser → Profile
unfolding to_string
github_profile u = record {
  provider_user_id = to_string u.id;
  email = u.email;
  username = some u.login;
  avatar_url = u.avatar_url;
}

unfoldable pub google_profile : GoogleUser → Profile
google_profile u = record {
  provider_user_id = u.sub;
  email = u.email;
  username = u.name;
  avatar_url = u.picture;
}

unfoldable pub microsoft_profile : MicrosoftUser → Profile
microsoft_profile u = record {
  provider_user_id = u.id;
  email = or_else u.mail u.user_principal_name;
  username = u.display_name;
  avatar_url = none;
}

unfoldable pub facebook_profile : FacebookUser → Profile
facebook_profile u = record {
  provider_user_id = u.id;
  email = u.email;
  username = u.name;
  avatar_url = u.picture_url;
}

unfoldable pub apple_profile : AppleIdTokenClaims → Profile
apple_profile c = record {
  provider_user_id = c.sub;
  email = c.email;
  username = none;
  avatar_url = none;
}

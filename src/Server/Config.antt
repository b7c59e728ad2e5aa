-- ===== src/Server/Config.antt =====
-- apps/server/src/config.rs: the configuration, from environment variables.
pub mod Lists
use free_box.Prelude.{
  ℕ, ◌+◌, ◌-◌, ◌*◌, ◌^◌, Bool, true, false, not, ◌&&◌, Option, none, some, List, [], ◌∷◌, ◌++◌,
  bytes_eq, ltb, leb, ◌==◌, if◌then◌else◌,
}
use free_box.Outcome.{unwrap_or, Result, ok, err, ok_or, ◌>>=◌}
use free_box.Server.Files.Keys.{Text, codes, is_digit}
use free_box.Server.Oauth.Provider.{match_provider}
use free_box.Texts.Trim.{trim}
use free_box.Texts.{is_empty}

-- The `anyhow` errors.
pub data ConfigError : Type 0 where
  not_set cannot_parse : ConfigError

-- `std::env::var`; a variable that is not in UTF-8 counts as absent.
abbrev pub Env : Type 0
Env = Text → Option Text

pub record OAuthProviderConfig : Type 0 where
  pub client_id : Text
  pub client_secret : Text
  pub redirect_uri : Text

pub record OAuthConfig : Type 0 where
  pub github : Option OAuthProviderConfig
  pub google : Option OAuthProviderConfig
  pub microsoft : Option OAuthProviderConfig
  pub apple : Option OAuthProviderConfig
  pub facebook : Option OAuthProviderConfig

abbrev pub provider_config : Option Text → Option Text → Option Text → Option OAuthProviderConfig
provider_config (some id) (some secret) (some uri) =
    some (record { client_id = id; client_secret = secret; redirect_uri = uri })
provider_config _ _ _ = none

unfoldable pub load_provider_config : Env → Text → Option OAuthProviderConfig
load_provider_config env provider =
    provider_config (env (codes "OAUTH_" ++ provider ++ codes "_CLIENT_ID"))
      (env (codes "OAUTH_" ++ provider ++ codes "_CLIENT_SECRET"))
      (env (codes "OAUTH_" ++ provider ++ codes "_REDIRECT_URI"))

-- `OAuthConfig::from_env`
unfoldable pub oauth_from_env : Env → OAuthConfig
unfolding load_provider_config
oauth_from_env env = record {
  github = load_provider_config env (codes "GITHUB");
  google = load_provider_config env (codes "GOOGLE");
  microsoft = load_provider_config env (codes "MICROSOFT");
  apple = load_provider_config env (codes "APPLE");
  facebook = load_provider_config env (codes "FACEBOOK");
}

-- `OAuthConfig::get`; `to_lowercase` is the standard library's.
unfoldable pub get_oauth : (Text → Text) → OAuthConfig → Text → Option OAuthProviderConfig
get_oauth to_lowercase oauth provider =
    match_provider (to_lowercase provider) oauth.github oauth.google oauth.microsoft oauth.apple
      oauth.facebook none

unfoldable pub env_or : Env → Text → Text → Text
env_or env key default = unwrap_or (env key) default

unfoldable pub env_require : Env → Text → Result ConfigError Text
env_require env key = ok_or (env key) not_set

-- `str::parse` of an unsigned number below a limit: an optional plus sign, then at least one digit
unfoldable pub parse_digits : ℕ → ℕ → Text → Option ℕ
parse_digits limit n [] = if ltb n limit then some n else none
parse_digits limit n (c ∷ cs) =
    let rest = parse_digits limit (n * 10 + (c - 48)) cs in if is_digit c then rest else none

unfoldable pub parse_unsigned : ℕ → Text → Option ℕ
unfolding parse_digits
parse_unsigned limit [] = none
parse_unsigned limit (c ∷ []) = if c == b'+' then none else parse_digits limit 0 (c ∷ [])
parse_unsigned limit (c ∷ d ∷ cs) =
    if c == b'+' then parse_digits limit 0 (d ∷ cs) else parse_digits limit 0 (c ∷ d ∷ cs)

abbrev pub parsed_or : ℕ → Option Text → ℕ → Result ConfigError ℕ
parsed_or limit none default = ok default
parsed_or limit (some value) default = ok_or (parse_unsigned limit value) cannot_parse

-- The limit is that of the type that is parsed.
unfoldable pub env_parse : Env → ℕ → Text → ℕ → Result ConfigError ℕ
unfolding parse_unsigned
env_parse env limit key default = parsed_or limit (env key) default

-- `str::split` at a character
abbrev pub onto_first : ℕ → List Text → List Text
onto_first c [] = (c ∷ []) ∷ []
onto_first c (part ∷ parts) = (c ∷ part) ∷ parts

unfoldable pub split : ℕ → Text → List Text
split separator [] = [] ∷ []
split separator (c ∷ cs) =
    let rest = split separator cs in if c == separator then [] ∷ rest else onto_first c rest

abbrev pub trim_all : List Text → List Text
trim_all [] = []
trim_all (part ∷ parts) =
    let rest = trim_all parts in
    let value = trim part in if is_empty value then rest else value ∷ rest

-- `collect`: the first error, or all the values
unfoldable pub parse_all : (Text → Option ℕ) → List Text → Result ConfigError (List ℕ)
parse_all parse_str [] = ok []
parse_all parse_str (value ∷ values) = do
  id ← ok_or (parse_str value) cannot_parse
  ids ← parse_all parse_str values
  ok (id ∷ ids)

abbrev pub ids_of : (Text → Option ℕ) → Option Text → Result ConfigError (List ℕ)
ids_of parse_str none = ok []
ids_of parse_str (some raw) = parse_all parse_str (trim_all (split b',' raw))

-- `parse_str` is `Uuid::parse_str`.
unfoldable pub env_parse_uuid_list : (Text → Option ℕ) → Env → Text → Result ConfigError (List ℕ)
unfolding parse_all split trim
env_parse_uuid_list parse_str env key = ids_of parse_str (env key)

pub record Config : Type 0 where
  pub host : Text
  pub port : ℕ
  pub database_url : Text
  pub db_pool_size : ℕ
  pub redis_url : Text
  pub rate_limit_requests : ℕ
  pub rate_limit_window_secs : ℕ
  pub oauth_reactivation_max_age_days : ℕ
  pub admin_user_ids : List ℕ
  pub jwt_secret : Text
  pub jwt_access_ttl_secs : ℕ
  pub jwt_refresh_ttl_secs : ℕ
  pub storage_provider : Text
  pub storage_local_root : Text
  pub storage_s3_bucket : Text
  pub storage_s3_region : Text
  pub storage_s3_endpoint : Text
  pub storage_s3_access_key : Text
  pub storage_s3_secret_key : Text
  pub argon2_memory_kib : ℕ
  pub argon2_iterations : ℕ
  pub argon2_parallelism : ℕ
  pub oauth : OAuthConfig

abbrev pub u16 : ℕ
u16 = 65536

abbrev pub u32 : ℕ
u32 = 4294967296

abbrev pub u64 : ℕ
u64 = 18446744073709551616

-- `Config::from_env`
unfoldable pub from_env : (Text → Option ℕ) → Env → Result ConfigError Config
unfolding env_or env_require env_parse env_parse_uuid_list oauth_from_env
from_env parse_str env = do
  port ← env_parse env u16 (codes "SERVER_PORT") 8080
  database_url ← env_require env (codes "DATABASE_URL")
  db_pool_size ← env_parse env u32 (codes "DB_POOL_SIZE") 10
  rate_limit_requests ← env_parse env u32 (codes "RATE_LIMIT_REQUESTS") 600
  rate_limit_window_secs ← env_parse env u64 (codes "RATE_LIMIT_WINDOW_SECS") 60
  max_age_days ← env_parse env u32 (codes "OAUTH_REACTIVATION_MAX_AGE_DAYS") 30
  admin_user_ids ← env_parse_uuid_list parse_str env (codes "ADMIN_USER_IDS")
  jwt_secret ← env_require env (codes "JWT_SECRET")
  jwt_access_ttl_secs ← env_parse env u64 (codes "JWT_ACCESS_TTL_SECS") 900
  jwt_refresh_ttl_secs ← env_parse env u64 (codes "JWT_REFRESH_TTL_SECS") 2_592_000
  argon2_memory_kib ← env_parse env u32 (codes "ARGON2_MEMORY_KIB") 65_536
  argon2_iterations ← env_parse env u32 (codes "ARGON2_ITERATIONS") 3
  argon2_parallelism ← env_parse env u32 (codes "ARGON2_PARALLELISM") 4
  ok (record {
    host = env_or env (codes "SERVER_HOST") (codes "127.0.0.1");
    port = port;
    database_url = database_url;
    db_pool_size = db_pool_size;
    redis_url = env_or env (codes "REDIS_URL") (codes "redis://127.0.0.1:6379");
    rate_limit_requests = rate_limit_requests;
    rate_limit_window_secs = rate_limit_window_secs;
    oauth_reactivation_max_age_days = max_age_days;
    admin_user_ids = admin_user_ids;
    jwt_secret = jwt_secret;
    jwt_access_ttl_secs = jwt_access_ttl_secs;
    jwt_refresh_ttl_secs = jwt_refresh_ttl_secs;
    storage_provider = env_or env (codes "STORAGE_PROVIDER") (codes "local");
    storage_local_root = env_or env (codes "STORAGE_LOCAL_ROOT") (codes "./data/freebox-storage");
    storage_s3_bucket = env_or env (codes "STORAGE_S3_BUCKET") [];
    storage_s3_region = env_or env (codes "STORAGE_S3_REGION") (codes "auto");
    storage_s3_endpoint = env_or env (codes "STORAGE_S3_ENDPOINT") [];
    storage_s3_access_key = env_or env (codes "STORAGE_S3_ACCESS_KEY") [];
    storage_s3_secret_key = env_or env (codes "STORAGE_S3_SECRET_KEY") [];
    argon2_memory_kib = argon2_memory_kib;
    argon2_iterations = argon2_iterations;
    argon2_parallelism = argon2_parallelism;
    oauth = oauth_from_env env;
  })

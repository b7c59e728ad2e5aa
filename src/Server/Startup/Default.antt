-- ===== src/Server/Startup/Default.antt =====
-- What the server of apps/server starts with when only the two required variables are set.
use free_box.Prelude.{◌≡◌, none, List, [], ◌∷◌, All}
use free_box.Server.Files.Keys.{Text, codes}
use free_box.Server.Config.{Config, Env}

-- The variables with a default, but for the providers' of OAuth.
abbrev pub optional_keys : List Text
optional_keys =
    codes "SERVER_HOST"
    ∷ codes "SERVER_PORT"
    ∷ codes "DB_POOL_SIZE"
    ∷ codes "REDIS_URL"
    ∷ codes "RATE_LIMIT_REQUESTS"
    ∷ codes "RATE_LIMIT_WINDOW_SECS"
    ∷ codes "OAUTH_REACTIVATION_MAX_AGE_DAYS"
    ∷ codes "ADMIN_USER_IDS"
    ∷ codes "JWT_ACCESS_TTL_SECS"
    ∷ codes "JWT_REFRESH_TTL_SECS"
    ∷ codes "STORAGE_PROVIDER"
    ∷ codes "STORAGE_LOCAL_ROOT"
    ∷ codes "STORAGE_S3_BUCKET"
    ∷ codes "STORAGE_S3_REGION"
    ∷ codes "STORAGE_S3_ENDPOINT"
    ∷ codes "STORAGE_S3_ACCESS_KEY"
    ∷ codes "STORAGE_S3_SECRET_KEY"
    ∷ codes "ARGON2_MEMORY_KIB"
    ∷ codes "ARGON2_ITERATIONS"
    ∷ codes "ARGON2_PARALLELISM"
    ∷ []

-- Unset, one after the other.
abbrev AllUnset : Env → List Text → Type 0
AllUnset env keys = All (λ key. env key ≡ none) keys

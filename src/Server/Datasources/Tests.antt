-- ===== src/Server/Datasources/Tests.antt =====
-- The storage API of apps/server/src/api/storage.rs at concrete inputs.
use free_box.Prelude.{ℕ, ◌+◌, ◌==◌, if◌then◌else◌, bytes_eq, ◌≡◌, refl, Option, none, some, [], ◌∷◌}
use free_box.Outcome.{err}
use free_box.Server.Error.{internal}
use free_box.Server.Files.Keys.{Text, codes}
use free_box.Server.Config.{Config, OAuthConfig}
use free_box.Storage.S3.Sigv4.{Digests, Stamp}
use free_box.Storage.S3.Bucket.{Web}
use free_box.Server.Datasources.{
  uses_s3_compatible_storage, list_datasources, list_buckets, create_bucket, s3_provider_name,
}
use free_box.Server.Datasources.Aws.{bucket_management-aws}

abbrev nobody : OAuthConfig
nobody = record { github = none; google = none; microsoft = none; apple = none; facebook = none }

abbrev aws : Config
aws = record {
  host = codes "127.0.0.1";
  port = 8080;
  database_url = codes "postgres://localhost/freebox";
  db_pool_size = 10;
  redis_url = codes "redis://127.0.0.1:6379";
  rate_limit_requests = 600;
  rate_limit_window_secs = 60;
  oauth_reactivation_max_age_days = 30;
  admin_user_ids = [];
  jwt_secret = codes "test-secret";
  jwt_access_ttl_secs = 900;
  jwt_refresh_ttl_secs = 2_592_000;
  storage_provider = codes " S3 ";
  storage_local_root = codes "./data/freebox-storage";
  storage_s3_bucket = codes "freebox";
  storage_s3_region = codes "us-east-1";
  storage_s3_endpoint = [];
  storage_s3_access_key = codes "key";
  storage_s3_secret_key = codes "secret";
  argon2_memory_kib = 65_536;
  argon2_iterations = 3;
  argon2_parallelism = 4;
  oauth = nobody;
}

-- the name that `s3_provider_name` has for this configuration
aws_name : s3_provider_name aws ≡ codes "aws-s3"
unfolding s3_provider_name bytes_eq
aws_name = refl

-- a URL that begins with a letter has a host here
abbrev parse : Text → Option (Option Text)
parse [] = none
parse (c ∷ cs) = if c == b'/' then none else some (some cs)

abbrev web : Web ℕ
web = record { url_parse = parse; send = λ request n. (none, n + 1) }

abbrev digests : Digests
digests = record {
  sha256 = λ bytes. bytes;
  hmac_sha256 = λ key bytes. bytes;
  encode = λ bytes. bytes;
}

abbrev now : Stamp
now = record { date = codes "20240501"; datetime = codes "20240501T000000Z" }

bucket_management-aws_example :
    (list_datasources web digests now aws 0 ≡ (err internal, 0))
    × (list_buckets web digests now aws 0 ≡ (err internal, 0))
    × (create_bucket web digests now aws (codes "new") 0 ≡ (err internal, 0))
unfolding uses_s3_compatible_storage bytes_eq
bucket_management-aws_example =
    bucket_management-aws web digests now aws (codes "new") 0 refl refl refl refl refl

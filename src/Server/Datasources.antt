-- ===== src/Server/Datasources.antt =====
-- apps/server/src/api/storage.rs: data sources and buckets. The state is what the storage plugin reads and
-- writes; the requests to the storage service are those of plugins/storage-s3/src/bucket.rs.
pub mod Names
pub mod Listed
pub mod Aws
mod Tests
use free_box.Server.Startup.{provider_name}
use free_box.Prelude.{
  ℕ, Bool, true, false, not, ◌&&◌, ◌||◌, Option, none, some, List, [], ◌∷◌, ◌++◌, map, bytes_eq,
  ltb, ◌==◌, if◌then◌else◌,
}
use free_box.Outcome.{Result, ok, err, reject_if}
use free_box.Server.Error.{AppError, CoreError, internal, bad_request}
use free_box.Server.Handler.{Handler, pure, lift, ◌>>=◌, ◌>>◌}
use free_box.Server.Files.Keys.{Text, codes}
use free_box.Texts.Trim.{trim}
use free_box.Server.Config.{Config}
use free_box.Texts.{is_empty, contains, to_ascii_lowercase, trim_end_slashes}
use free_box.Storage.{Call}
use free_box.Storage.S3.Sigv4.{Digests, Stamp}
use free_box.Storage.S3.Bucket
use free_box.Storage.S3.Bucket.{BucketInfo, Web}

-- `BucketItem` has the fields of `BucketInfo`.
pub record BucketItem : Type 0 where
  pub name : Text
  pub creation_date : Option Text

pub record CreateBucketResponse : Type 0 where
  pub name : Text
  pub created : Bool

pub record DatasourceItem : Type 0 where
  pub name : Text
  pub provider : Text
  pub location : Text
  pub region : Text
  pub status : Text

abbrev pub item_of : BucketInfo → BucketItem
item_of b = record { name = b.name; creation_date = b.creation_date }

unfoldable pub uses_s3_compatible_storage : Config → Bool
unfolding provider_name
uses_s3_compatible_storage cfg =
    bytes_eq (provider_name cfg) (codes "s3") || bytes_eq (provider_name cfg) (codes "r2")

unfoldable pub s3_provider_name : Config → Text
unfolding provider_name contains to_ascii_lowercase
s3_provider_name cfg =
    let endpoint = to_ascii_lowercase cfg.storage_s3_endpoint in
    if bytes_eq (provider_name cfg) (codes "r2")
      || contains (codes ".r2.cloudflarestorage.com") endpoint
    then codes "cloudflare-r2"
    else if contains (codes "backblazeb2.com") endpoint
    then codes "backblaze-b2"
    else if contains (codes "localhost") endpoint
        || (contains (codes "127.0.0.1") endpoint || contains (codes "minio") endpoint)
    then codes "minio"
    else if is_empty endpoint
    then codes "aws-s3"
    else codes "s3-compatible"

abbrev pub location_of : Text → Text → Text
location_of endpoint bucket =
    if is_empty endpoint
    then (if is_empty bucket then codes "s3://<bucket-not-configured>" else codes "s3://" ++ bucket)
    else if is_empty bucket
    then endpoint
    else endpoint ++ b'/' ∷ bucket

unfoldable pub s3_location_for_bucket : Config → Text → Text
unfolding trim trim_end_slashes
s3_location_for_bucket cfg bucket =
    location_of (trim_end_slashes (trim cfg.storage_s3_endpoint)) (trim bucket)

unfoldable pub empty_as_dash : Text → Text
unfolding trim
empty_as_dash value = if is_empty (trim value) then codes "-" else value

abbrev pub local_datasources_from_config : Config → List DatasourceItem
local_datasources_from_config cfg =
    record {
      name = codes "local";
      provider = codes "local";
      location = cfg.storage_local_root;
      region = codes "-";
      status = codes "available";
    }
    ∷ []

-- `String`'s order, by bytes
unfoldable pub text_lt : Text → Text → Bool
text_lt xs [] = false
text_lt [] (y ∷ ys) = true
text_lt (x ∷ xs) (y ∷ ys) = ltb x y || (x == y && text_lt xs ys)

-- `Vec::sort`
unfoldable pub insert_name : Text → List Text → List Text
unfolding text_lt
insert_name x [] = x ∷ []
insert_name x (y ∷ ys) = let rest = insert_name x ys in if text_lt y x then y ∷ rest else x ∷ y ∷ ys

unfoldable pub sort_names : List Text → List Text
unfolding insert_name
sort_names [] = []
sort_names (x ∷ xs) = insert_name x (sort_names xs)

-- `Vec::dedup`
unfoldable pub dedup : List Text → List Text
dedup [] = []
dedup (x ∷ []) = x ∷ []
dedup (x ∷ y ∷ ys) = let rest = dedup (y ∷ ys) in if bytes_eq x y then rest else x ∷ rest

-- the item of one bucket
unfoldable pub bucket_item : Config → Text → DatasourceItem
unfolding trim s3_provider_name s3_location_for_bucket empty_as_dash
bucket_item cfg bucket = record {
  name = bucket;
  provider = s3_provider_name cfg;
  location = s3_location_for_bucket cfg bucket;
  region = empty_as_dash cfg.storage_s3_region;
  status =
      if bytes_eq bucket (trim cfg.storage_s3_bucket)
      then codes "configured"
      else codes "available";
}

-- the item without a bucket in the account
unfoldable pub lone_item : Config → DatasourceItem
unfolding trim s3_provider_name s3_location_for_bucket empty_as_dash
lone_item cfg =
    let active = trim cfg.storage_s3_bucket in
    record {
      name = if is_empty active then s3_provider_name cfg else active;
      provider = s3_provider_name cfg;
      location = s3_location_for_bucket cfg active;
      region = empty_as_dash cfg.storage_s3_region;
      status = if is_empty active then codes "misconfigured" else codes "configured";
    }

abbrev pub items_of : Config → List Text → List DatasourceItem
items_of cfg [] = lone_item cfg ∷ []
items_of cfg (name ∷ names) = map (bucket_item cfg) (name ∷ names)

unfoldable pub s3_datasources_from_config_and_buckets :
    Config → List BucketInfo → List DatasourceItem
s3_datasources_from_config_and_buckets cfg buckets =
    items_of cfg (dedup (sort_names (map (λ (b : BucketInfo). b.name) buckets)))

-- every error of the plugin is an internal one
abbrev pub or_internal : {S A : Type 0} → Call S A → Handler S A
or_internal call s =
    let (r, after) = call s in (elim r [ ok a ↦ ok a | err e ↦ err internal ], after)

module _ {S : Type 0} (web : Web S) (digests : Digests) (now : Stamp) (cfg : Config) where
  abbrev pub account_buckets : Handler S (List BucketInfo)
  account_buckets = or_internal (
      Bucket.list_buckets web digests now cfg.storage_s3_endpoint cfg.storage_s3_region
        cfg.storage_s3_access_key cfg.storage_s3_secret_key)

  unfoldable pub list_datasources : Handler S (List DatasourceItem)
  list_datasources =
      if uses_s3_compatible_storage cfg
      then (account_buckets >>= λ buckets.
          pure (
            local_datasources_from_config cfg
            ++ s3_datasources_from_config_and_buckets cfg buckets))
      else pure (local_datasources_from_config cfg)

  unfoldable pub list_buckets : Handler S (List BucketItem)
  list_buckets =
      if not (uses_s3_compatible_storage cfg)
      then pure []
      else (account_buckets >>= λ buckets. pure (map item_of buckets))

  unfoldable pub create_bucket : Text → Handler S CreateBucketResponse
  create_bucket name = do
    lift (reject_if (not (uses_s3_compatible_storage cfg)) bad_request)
    lift (reject_if (is_empty name) bad_request)
    or_internal (
        Bucket.create_bucket web digests now cfg.storage_s3_endpoint name cfg.storage_s3_region
          cfg.storage_s3_access_key cfg.storage_s3_secret_key)
    pure (record { name = name; created = true })

-- ===== src/Storage/S3/Lifecycle.antt =====
-- plugins/storage-s3/src/lib.rs as a plugin: its manifest, `on_load` and `on_unload`.
use free_box.Prelude.{Bool, true, false, Option, none, some, [], ◌∷◌}
use free_box.Outcome.{unwrap_or, err, ok_or}
use free_box.Server.Error.{CoreError}
use free_box.Server.Files.Keys.{Text, codes}
use free_box.Storage.{Call, pure, lift, ◌>>=◌, ◌>>◌}
use free_box.Storage.Local.{Operator}
use free_box.Storage.Local.Lifecycle.{set_operator}
use free_box.Storage.S3.{S3Plugin, s3_provider}
use free_box.Storage.S3.Sigv4.{Digests, Stamp}
use free_box.Storage.S3.Bucket.{Web, ensure_bucket_exists}
use free_box.Plugin.{
  Plugin, PluginManifest, PluginContext, Value, as_str, as_bool, get_value, require_config,
  config_str,
}

-- OpenDAL's builder of an S3 operator.
pub record Builder : Type 0 where
  pub bucket : Text
  pub region : Text
  pub endpoint : Option Text
  pub credentials : Option (Text × Text)
  pub virtual_host_style : Bool

-- What a list of the bucket's root says; the second error is one whose text has `NoSuchBucket`.
pub data Reach : Type 0 where
  reached no_such_bucket unreached : Reach

-- OpenDAL, the web and the clock.
pub record Cloud (D : Type 0) : Type 0 where
  pub operator_of : Builder → Option (Operator D)
  pub list_root : Operator D → D → Reach
  pub web : Web (S3Plugin D)
  pub digests : Digests
  pub now : Stamp

abbrev pub manifest : PluginManifest
manifest = record {
  id = codes "storage-s3";
  name = codes "Amazon S3 Storage";
  version = codes "1.0.0";
  api_version = codes "^1.0";
  author = some (codes "FreeBox Team");
  license = some (codes "Apache-2.0");
  capabilities = record { provides = codes "storage.provider" ∷ []; requires = [] };
}

abbrev pub both : Option Text → Option Text → Option (Text × Text)
both (some a) (some b) = some (a, b)
both _ _ = none

abbrev pub bool_of : Option Value → Bool
bool_of none = false
bool_of (some v) = elim (as_bool v) [ none ↦ false | some b ↦ b ]

-- The keys of the context that `on_load` reads.
unfoldable pub builder_of : PluginContext → Text → Builder
unfolding config_str
builder_of ctx bucket = record {
  bucket = bucket;
  region = unwrap_or (config_str ctx (codes "region")) (codes "us-east-1");
  endpoint = config_str ctx (codes "endpoint");
  credentials = both (config_str ctx (codes "access_key")) (config_str ctx (codes "secret_key"));
  virtual_host_style = bool_of (get_value (codes "path_style") ctx.config);
}

module _ {D : Type 0} (cloud : Cloud D) where
  -- the second list, after the bucket was created
  abbrev verified : Reach → Call (S3Plugin D) (Unit {0})
  verified reached = pure tt
  verified _ = lift (err CoreError.storage)

  -- `NoSuchBucket`: the bucket is created
  unfoldable pub auto_create : PluginContext → Builder → Operator D → Call (S3Plugin D) (Unit {0})
  unfolding config_str ensure_bucket_exists
  auto_create ctx builder operator = do
    ak ← lift (ok_or (config_str ctx (codes "access_key")) CoreError.storage)
    sk ← lift (ok_or (config_str ctx (codes "secret_key")) CoreError.storage)
    let endpoint = unwrap_or (config_str ctx (codes "endpoint")) (codes "https://s3.amazonaws.com")
    ensure_bucket_exists cloud.web cloud.digests cloud.now endpoint builder.bucket builder.region ak
        sk
    λ s. verified (cloud.list_root operator s.disk) s

  abbrev pub verify : PluginContext → Builder → Operator D → Reach → Call (S3Plugin D) (Unit {0})
  verify ctx builder operator reached = pure tt
  verify ctx builder operator no_such_bucket = auto_create ctx builder operator
  verify ctx builder operator unreached = lift (err CoreError.storage)

  unfoldable pub on_load : PluginContext → Call (S3Plugin D) (Unit {0})
  unfolding require_config builder_of auto_create
  on_load ctx = do
    value ← lift (require_config ctx (codes "bucket"))
    bucket ← lift (ok_or (as_str value) CoreError.config)
    let builder = builder_of ctx bucket
    operator ← lift (ok_or (cloud.operator_of builder) CoreError.storage)
    (λ s. verify ctx builder operator (cloud.list_root operator s.disk) s)
    λ s. set_operator operator s.operator s

  abbrev pub s3_plugin : (Text → Option Text) → Plugin (S3Plugin D)
  s3_plugin url_parse = record {
    manifest = manifest;
    on_load = on_load;
    on_unload = pure tt;
    is_storage_provider = true;
    as_storage_provider = some (s3_provider url_parse);
  }

-- ===== src/Server/Startup.antt =====
-- apps/server/src/main.rs: the storage provider that the server starts with. `main` loads the configuration,
-- connects to the database, builds the provider and serves; what the database, the listener and the signals
-- do is left out.
pub mod Loaded
pub mod Default
mod Tests
use free_box.Prelude.{
  Bool, true, false, ◌||◌, Option, none, some, List, [], ◌∷◌, ◌++◌, bytes_eq, if◌then◌else◌,
}
use free_box.Outcome.{Result, ok, err}
use free_box.Server.Error.{CoreError}
use free_box.Server.Files.Keys.{Text, codes}
use free_box.Texts.Trim.{trim}
use free_box.Server.Config.{Config}
use free_box.Texts.{is_empty, to_ascii_lowercase}
use free_box.Storage.{StorageProvider}
use free_box.Storage.Local.{LocalPlugin, local_provider}
use free_box.Storage.Local.Lifecycle
use free_box.Storage.Local.Lifecycle.{Machine}
use free_box.Storage.S3.{s3_provider}
use free_box.Storage.S3.Lifecycle as S3
use free_box.Storage.S3.Lifecycle.{Cloud}
use free_box.Plugin.{PluginContext, Value, text}

-- The `anyhow` errors.
pub data StartupError : Type 0 where
  bucket_not_set unsupported : StartupError
  not_loaded : CoreError → StartupError

-- The outside of the server: the machine, OpenDAL and the web.
pub record Outside (D : Type 0) : Type 0 where
  pub machine : Machine D
  pub cloud : Cloud D
  pub url_parse : Text → Option Text

-- `cfg.storage_provider.trim().to_ascii_lowercase()`
unfoldable pub provider_name : Config → Text
unfolding trim to_ascii_lowercase
provider_name cfg = to_ascii_lowercase (trim cfg.storage_provider)

abbrev pub local_context : Config → PluginContext
local_context cfg = record { config = (codes "root", text cfg.storage_local_root) ∷ [] }

abbrev pub endpoint_entry : Text → List (Text × Value)
endpoint_entry endpoint = if is_empty endpoint then [] else (codes "endpoint", text endpoint) ∷ []

abbrev pub key_entries : Text → Text → List (Text × Value)
key_entries access_key secret_key =
    if is_empty access_key
    then []
    else (codes "access_key", text access_key) ∷ (codes "secret_key", text secret_key) ∷ []

abbrev pub s3_context : Config → PluginContext
s3_context cfg = record {
  config =
      (codes "bucket", text cfg.storage_s3_bucket)
      ∷ (codes "region", text cfg.storage_s3_region)
      ∷ (endpoint_entry cfg.storage_s3_endpoint
          ++ key_entries cfg.storage_s3_access_key cfg.storage_s3_secret_key);
}

abbrev pub loaded :
    {D : Type 0}
    → StorageProvider (LocalPlugin D)
    → Result CoreError (Unit {0}) × LocalPlugin D
    → Result StartupError (StorageProvider (LocalPlugin D)) × LocalPlugin D
loaded p (ok u, s) = (ok p, s)
loaded p (err e, s) = (err (not_loaded e), s)

-- The state is that of the plugin that is made, of either kind.
unfoldable pub build_storage_provider :
    {D : Type 0}
    → Outside D
    → Config
    → LocalPlugin D
    → Result StartupError (StorageProvider (LocalPlugin D)) × LocalPlugin D
unfolding provider_name Lifecycle.on_load S3.on_load
build_storage_provider outside cfg s =
    let name = provider_name cfg in
    if bytes_eq name (codes "local")
    then loaded local_provider (Lifecycle.on_load outside.machine (local_context cfg) s)
    else if bytes_eq name (codes "s3") || bytes_eq name (codes "r2")
    then if is_empty cfg.storage_s3_bucket
      then (err bucket_not_set, s)
      else loaded (s3_provider outside.url_parse) (S3.on_load outside.cloud (s3_context cfg) s)
    else (err unsupported, s)

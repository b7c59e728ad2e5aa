-- ===== src/Storage/Local/Lifecycle.antt =====
-- plugins/storage-local/src/lib.rs as a plugin: its manifest, `on_load` and `on_unload`.
use free_box.Prelude.{Bool, true, false, Option, none, some, [], ◌∷◌}
use free_box.Outcome.{ok, err, ok_or}
use free_box.Server.Error.{CoreError}
use free_box.Server.Files.Keys.{Text, codes}
use free_box.Storage.{Call, pure, lift, ◌>>=◌, ◌>>◌}
use free_box.Storage.Local.{Operator, LocalPlugin, local_provider}
use free_box.Plugin.{Plugin, PluginManifest, PluginContext, as_str, require_config}

-- What the operating system and OpenDAL do at a root directory.
pub record Machine (D : Type 0) : Type 0 where
  pub create_dir_all : Text → D → Bool × D
  pub operator_at : Text → Option (Operator D)

abbrev pub manifest : PluginManifest
manifest = record {
  id = codes "storage-local";
  name = codes "Local Filesystem Storage";
  version = codes "1.0.0";
  api_version = codes "^1.0";
  author = some (codes "FreeBox Team");
  license = some (codes "Apache-2.0");
  capabilities = record { provides = codes "storage.provider" ∷ []; requires = [] };
}

module _ {D : Type 0} where
  abbrev pub make_root : Machine D → Text → Call (LocalPlugin D) (Unit {0})
  make_root machine root s =
      let (made, disk) = machine.create_dir_all root s.disk in
      (elim made [ true ↦ ok tt | false ↦ err CoreError.storage ], record s { disk = disk })

  -- `OnceLock::set`
  abbrev pub set_operator : Operator D → Option (Operator D) → Call (LocalPlugin D) (Unit {0})
  set_operator operator none s = (ok tt, record s { operator = some operator })
  set_operator operator (some old) s = (err CoreError.storage, s)

  unfoldable pub on_load : Machine D → PluginContext → Call (LocalPlugin D) (Unit {0})
  unfolding require_config
  on_load machine ctx = do
    value ← lift (require_config ctx (codes "root"))
    root ← lift (ok_or (as_str value) CoreError.config)
    make_root machine root
    operator ← lift (ok_or (machine.operator_at root) CoreError.storage)
    λ s. set_operator operator s.operator s

  abbrev pub local_plugin : Machine D → Plugin (LocalPlugin D)
  local_plugin machine = record {
    manifest = manifest;
    on_load = on_load machine;
    on_unload = pure tt;
    is_storage_provider = true;
    as_storage_provider = some local_provider;
  }

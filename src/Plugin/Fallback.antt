-- ===== src/Plugin/Fallback.antt =====
-- A registry of packages/core/src/plugin.rs whose first storage plugin, the one of
-- plugins/storage-local/src/lib.rs, fails to load.
use free_box.Prelude.{Bool, ◌≡◌, refl, ap, ◌∙◌, Option, none, some, List, [], ◌∷◌, map}
use free_box.Outcome.{ok, err}
use free_box.Server.Error.{storage}
use free_box.Server.Files.Keys.{Text, codes}
use free_box.Storage.{Bytes, Call, StorageProvider, ObjectMeta, MultipartUpload, CompletedPart}
use free_box.Storage.Local.{LocalPlugin, local_provider, put, get, op}
use free_box.Storage.Local.Lifecycle.{Machine, local_plugin, on_load}
use free_box.Plugin.{
  Plugin, PluginRegistry, PluginContext, get_value, require_config, storage_provider, find_provider,
  load_all, load_each,
}

-- A plugin on a part of the state: `on` runs a call on the part.
module _ {S W : Type 0} (on : (A : Type 0) → Call S A → Call W A) where
  abbrev pub provider_on : StorageProvider S → StorageProvider W
  provider_on p = record {
    id = p.id;
    put = λ key bytes. on Unit (p.put key bytes);
    get = λ key. on Bytes (p.get key);
    get_range = λ key from to. on Bytes (p.get_range key from to);
    delete = λ key. on Unit (p.delete key);
    list = λ prefix. on (List ObjectMeta) (p.list prefix);
    exists = λ key. on Bool (p.exists key);
    create_multipart = λ id key. on MultipartUpload (p.create_multipart id key);
    upload_part = λ upload n bytes. on CompletedPart (p.upload_part upload n bytes);
    complete_multipart = λ upload parts. on Unit (p.complete_multipart upload parts);
    abort_multipart = λ upload. on Unit (p.abort_multipart upload);
    head = λ key. on ObjectMeta (p.head key);
    capabilities = p.capabilities;
    presign_get = λ key expires. on Text (p.presign_get key expires);
  }

  abbrev pub backend_on : Option (StorageProvider S) → Option (StorageProvider W)
  backend_on none = none
  backend_on (some p) = some (provider_on p)

  abbrev pub plugin_on : Plugin S → Plugin W
  plugin_on p = record {
    manifest = p.manifest;
    on_load = λ ctx. on Unit (p.on_load ctx);
    on_unload = on Unit p.on_unload;
    is_storage_provider = p.is_storage_provider;
    as_storage_provider = backend_on p.as_storage_provider;
  }

-- The halves of a pair.
module _ {S R : Type 0} where
  abbrev pub on_left : (A : Type 0) → Call S A → Call (S × R) A
  on_left A m w = let (r, s) = m w.0 in (r, (s, w.1))

  abbrev pub on_right : (A : Type 0) → Call R A → Call (S × R) A
  on_right A m w = let (r, t) = m w.1 in (r, (w.0, t))

load_each-on_right :
    {S R : Type 0} (ctx : PluginContext) (ps : List (Plugin R)) (w : S × R)
    → ((load_each ctx (map (plugin_on on_right) ps) w).0 ≡ ok tt)
      × ((load_each ctx (map (plugin_on on_right) ps) w).1.0 ≡ w.0)
unfolding load_each
load_each-on_right ctx [] w = (refl, refl)
load_each-on_right ctx (p ∷ ps) w = load_each-on_right ctx ps (on_right Unit (p.on_load ctx) w).1

not_loaded :
    {D : Type 0} (machine : Machine D) (ctx : PluginContext) (s : LocalPlugin D)
    → get_value (codes "root") ctx.config ≡ none
    → (on_load machine ctx s).1 ≡ s
unfolding on_load require_config
not_loaded machine ctx s h = rw h refl

put_unready :
    {D R : Type 0} (key : Text) (bytes : Bytes) (w : LocalPlugin D × R)
    → w.0.operator ≡ none
    → on_left Unit (put key bytes) w ≡ (err storage, w)
unfolding put op
put_unready key bytes w h = rw h refl

get_unready :
    {D R : Type 0} (key : Text) (w : LocalPlugin D × R)
    → w.0.operator ≡ none
    → on_left Bytes (get key) w ≡ (err storage, w)
unfolding get op
get_unready key w h = rw h refl

-- Take a registry whose first plugin is the local storage, and a configuration without a root. Loading all
-- plugins reports success. The registry then still serves the local storage, whichever storage plugins
-- are registered after it: every `put` and every `get` is a storage error and changes nothing.
pub failed_plugin_is_served :
    (D R : Type 0) (machine : Machine D) (ps : List (Plugin R)) (ctx : PluginContext) (disk : D)
    (rest : R) (key : Text) (bytes : Bytes)
    → get_value (codes "root") ctx.config ≡ none
    → let registry : PluginRegistry (LocalPlugin D × R) = record {
      plugins = plugin_on on_left (local_plugin machine) ∷ map (plugin_on on_right) ps;
    } in
      let provider = provider_on (on_left {R = R}) (local_provider {D = D}) in
      let after = load_all registry ctx (record { operator = none; disk = disk }, rest) in
      (after.0 ≡ ok tt)
      × (storage_provider registry ≡ some provider)
      × (provider.put key bytes after.1 ≡ (err storage, after.1))
      × (provider.get key after.1 ≡ (err storage, after.1))
unfolding load_all load_each storage_provider find_provider
failed_plugin_is_served D R machine ps ctx disk rest key bytes h =
    let started : LocalPlugin D = record { operator = none; disk = disk } in
    let state = (on_load machine ctx started).1 in
    let others = load_each-on_right ctx ps (state, rest) in
    let after = (load_each ctx (map (plugin_on on_right) ps) (state, rest)).1 in
    let unready : after.0.operator ≡ none =
      ap (λ (s : LocalPlugin D). s.operator) (others.1 ∙ not_loaded machine ctx started h) in
    (others.0, refl, put_unready key bytes after unready, get_unready key after unready)

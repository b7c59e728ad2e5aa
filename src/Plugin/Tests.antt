-- ===== src/Plugin/Tests.antt =====
-- A registry with two local storages, of which the first has no root.
use free_box.Prelude.{◌≡◌, refl, true, false, Option, none, some, List, [], ◌∷◌, map, bytes_eq}
use free_box.Outcome.{ok, err}
use free_box.Server.Error.{storage}
use free_box.Server.Files.Keys.{codes}
use free_box.Storage.{Bytes}
use free_box.Storage.Local.{Fault, LocalPlugin, Operator, not_found, local_provider}
use free_box.Storage.Local.Lifecycle.{Machine, local_plugin}
use free_box.Plugin.{
  PluginContext, PluginRegistry, Plugin, text, load_all, storage_provider, get_value,
}
use free_box.Plugin.Fallback.{provider_on, plugin_on, on_left, on_right, failed_plugin_is_served}

-- A disk that keeps the last object.
abbrev Disk : Type 0
Disk = Option Bytes

abbrev operator : Operator Disk
operator = record {
  write = λ key bytes d. (ok tt, some bytes);
  read = λ key d. err not_found;
  read_range = λ key from to d. err not_found;
  delete = λ key d. (ok tt, none);
  list_with = λ prefix d. ok [];
  is_exist = λ key d. ok false;
  stat_with = λ key d. err not_found;
  presign_read = λ key expires d. err Fault.unexpected;
}

abbrev machine : Machine Disk
machine = record { create_dir_all = λ root d. (true, d); operator_at = λ root. some operator }

abbrev ctx : PluginContext
ctx = record { config = (codes "region", text (codes "auto")) ∷ [] }

abbrev others : List (Plugin (LocalPlugin Disk))
others = local_plugin machine ∷ []

abbrev started : LocalPlugin Disk
started = record { operator = none; disk = none }

root_missing : get_value (codes "root") ctx.config ≡ none
unfolding bytes_eq
root_missing = refl

failed_plugin_is_served_example :
    let registry : PluginRegistry (LocalPlugin Disk × LocalPlugin Disk) = record {
      plugins = plugin_on on_left (local_plugin machine) ∷ map (plugin_on on_right) others;
    } in
    let provider = provider_on (on_left {R = LocalPlugin Disk}) (local_provider {D = Disk}) in
    let after = load_all registry ctx (started, started) in
    (after.0 ≡ ok tt)
    × (storage_provider registry ≡ some provider)
    × (provider.put (codes "k") (1 ∷ []) after.1 ≡ (err storage, after.1))
    × (provider.get (codes "k") after.1 ≡ (err storage, after.1))
failed_plugin_is_served_example =
    failed_plugin_is_served Disk (LocalPlugin Disk) machine others ctx none started (codes "k")
      (1 ∷ []) root_missing

-- ===== src/Plugin.antt =====
-- packages/core/src/plugin.rs: plugins, their context and the registry. A plugin reads and writes a state `W`
-- that all plugins share.
mod Tests
pub mod Fallback
use free_box.Prelude.{
  Bool, true, false, Option, none, some, List, [], ◌∷◌, ◌++◌, bytes_eq, if◌then◌else◌,
}
use free_box.Outcome.{Result, ok, err, ok_or}
use free_box.Server.Error.{CoreError}
use free_box.Server.Files.Keys.{Text}
use free_box.Storage.{Call, pure, ignore, ◌>>=◌, ◌>>◌, StorageProvider}

pub record Capabilities : Type 0 where
  pub provides : List Text
  pub requires : List Text

-- The JSON schema of the configuration is not read by this crate.
pub record PluginManifest : Type 0 where
  pub id : Text
  pub name : Text
  pub version : Text
  pub api_version : Text
  pub author : Option Text
  pub license : Option Text
  pub capabilities : Capabilities

-- A JSON value is a text, a Boolean or something else.
pub data Value : Type 0 where
  text : Text → Value
  boolean : Bool → Value
  other : Value

abbrev pub as_str : Value → Option Text
as_str (text t) = some t
as_str (boolean b) = none
as_str other = none

abbrev pub as_bool : Value → Option Bool
as_bool (text t) = none
as_bool (boolean b) = some b
as_bool other = none

-- The map `config`.
pub record PluginContext : Type 0 where
  pub config : List (Text × Value)

abbrev pub get_value : Text → List (Text × Value) → Option Value
get_value key [] = none
get_value key (e ∷ es) = if bytes_eq e.0 key then some e.1 else get_value key es

unfoldable pub require_config : PluginContext → Text → Result CoreError Value
require_config ctx key = ok_or (get_value key ctx.config) CoreError.config

abbrev pub str_of : Option Value → Option Text
str_of none = none
str_of (some v) = as_str v

unfoldable pub config_str : PluginContext → Text → Option Text
config_str ctx key = str_of (get_value key ctx.config)

pub record Plugin (W : Type 0) : Type 0 where
  pub manifest : PluginManifest
  pub on_load : PluginContext → Call W (Unit {0})
  pub on_unload : Call W (Unit {0})
  pub is_storage_provider : Bool
  pub as_storage_provider : Option (StorageProvider W)

pub record PluginRegistry (W : Type 0) : Type 0 where
  pub plugins : List (Plugin W)

module _ {W : Type 0} where
  abbrev pub new : PluginRegistry W
  new = record { plugins = [] }

  unfoldable pub register : PluginRegistry W → Plugin W → PluginRegistry W
  register r p = record { plugins = r.plugins ++ p ∷ [] }

  unfoldable pub find_provider : List (Plugin W) → Option (StorageProvider W)
  find_provider [] = none
  find_provider (p ∷ ps) =
      let rest = find_provider ps in if p.is_storage_provider then p.as_storage_provider else rest

  unfoldable pub storage_provider : PluginRegistry W → Option (StorageProvider W)
  unfolding find_provider
  storage_provider r = find_provider r.plugins

  -- A failure is logged, and the next plugin is loaded.
  unfoldable pub load_each : PluginContext → List (Plugin W) → Call W (Unit {0})
  load_each ctx [] = pure tt
  load_each ctx (p ∷ ps) = ignore (p.on_load ctx) >> load_each ctx ps

  unfoldable pub load_all : PluginRegistry W → PluginContext → Call W (Unit {0})
  unfolding load_each
  load_all r ctx = load_each ctx r.plugins

  abbrev pub reverse : List (Plugin W) → List (Plugin W)
  reverse [] = []
  reverse (p ∷ ps) = reverse ps ++ p ∷ []

  unfoldable pub unload_each : List (Plugin W) → Call W (Unit {0})
  unload_each [] = pure tt
  unload_each (p ∷ ps) = ignore p.on_unload >> unload_each ps

  unfoldable pub unload_all : PluginRegistry W → Call W (Unit {0})
  unfolding unload_each
  unload_all r = unload_each (reverse r.plugins)

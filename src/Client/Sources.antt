-- ===== src/Client/Sources.antt =====
-- apps/cli/src/config.rs and apps/cli/src/commands/provider.rs: the storage sources in the client's own
-- configuration file, and the rows that it shows of them.
pub mod Update
pub mod Shown
mod Tests
use free_box.Prelude.{
  ℕ, zero, suc, Bool, true, false, not, Option, none, some, List, [], ◌∷◌, ◌++◌, map, length,
  bytes_eq, ◌==◌, if◌then◌else◌,
}
use free_box.Outcome.{unwrap_or, Result, ok, err, ok_or, reject_if, ◌>>=◌, ◌>>◌}
use free_box.Server.Files.Keys.{Text, codes}
use free_box.Texts.{is_empty, to_ascii_lowercase, trim_end_slashes}
use free_box.Client.Session.{default_server}

pub record StorageSource : Type 0 where
  pub name : Text
  pub provider : Text
  pub endpoint : Text
  pub bucket : Text
  pub region : Text

pub record CliConfig : Type 0 where
  pub server : Text
  pub sources : List StorageSource

abbrev pub default_config : CliConfig
default_config = record { server = default_server; sources = [] }

-- The `anyhow` errors.
pub data SourceError : Type 0 where
  not_saved no_source no_path unreachable : SourceError

-- The crate `toml`.
pub record Toml : Type 0 where
  pub from_str : Text → Option CliConfig
  pub to_string_pretty : CliConfig → Option Text

-- `CliConfig::load`: of the text of the file, if it can be read
abbrev pub load : Toml → Option Text → CliConfig
load toml none = default_config
load toml (some raw) = unwrap_or (toml.from_str raw) default_config

abbrev pub written : Option Text → Option Text → Result SourceError (Unit {0}) × Option Text
written none file = (err not_saved, file)
written (some text) file = (ok tt, some text)

-- `CliConfig::save`: the file after it, if the directory and the file can be written
abbrev pub save :
    Toml → Bool → CliConfig → Option Text → Result SourceError (Unit {0}) × Option Text
save toml true cfg file = written (toml.to_string_pretty cfg) file
save toml false cfg file = (err not_saved, file)

-- `Vec::retain`, of the sources with another name
unfoldable pub retain : Text → List StorageSource → List StorageSource
retain name [] = []
retain name (s ∷ ss) = let rest = retain name ss in if bytes_eq s.name name then rest else s ∷ rest

unfoldable pub find_source : Text → List StorageSource → Option StorageSource
find_source name [] = none
find_source name (s ∷ ss) = if bytes_eq s.name name then some s else find_source name ss

-- What the user answers: nothing is the default of the question, where it has one. A question that fails ends
-- `add` before the file is read, and is not modelled.
pub record Answers : Type 0 where
  pub kind : ℕ
  pub name : Option Text
  pub endpoint : Text
  pub bucket : Text
  pub region : Option Text

abbrev pub types : List Text
types =
    codes "cloudflare-r2"
    ∷ codes "aws-s3"
    ∷ codes "minio"
    ∷ codes "backblaze-b2"
    ∷ codes "local"
    ∷ []

abbrev pub nth : ℕ → List Text → Text
nth n [] = []
nth zero (t ∷ ts) = t
nth (suc n) (t ∷ ts) = nth n ts

-- a type that is named, known or not, or one that is chosen from the list
abbrev pub chosen_type : Text → Answers → Text
chosen_type provider_type answers =
    if is_empty provider_type
    then nth answers.kind types
    else if bytes_eq provider_type (codes "?")
    then nth answers.kind types
    else provider_type

abbrev pub region_default : Text → Text
region_default chosen =
    if bytes_eq chosen (codes "cloudflare-r2")
    then codes "auto"
    else if bytes_eq chosen (codes "backblaze-b2")
    then codes "us-west-004"
    else codes "us-east-1"

abbrev pub needs_endpoint : Text → Bool
needs_endpoint chosen =
    if bytes_eq chosen (codes "cloudflare-r2")
    then true
    else if bytes_eq chosen (codes "minio")
    then true
    else bytes_eq chosen (codes "backblaze-b2")

-- The keys that are asked for are not kept.
unfoldable pub source_of : Text → Answers → StorageSource
source_of provider_type answers =
    let chosen = chosen_type provider_type answers in
    record {
      name = unwrap_or answers.name chosen;
      provider = chosen;
      endpoint = if needs_endpoint chosen then answers.endpoint else [];
      bucket = answers.bucket;
      region =
          if bytes_eq chosen (codes "local")
          then []
          else unwrap_or answers.region (region_default chosen);
    }

abbrev pub with_source : StorageSource → CliConfig → CliConfig
with_source s cfg = record cfg { sources = retain s.name cfg.sources ++ s ∷ [] }

module _ (toml : Toml) where
  unfoldable pub add :
      Bool → Text → Answers → Option Text → Result SourceError (Unit {0}) × Option Text
  unfolding source_of retain
  add writes provider_type answers file =
      save toml writes (with_source (source_of provider_type answers) (load toml file)) file

  unfoldable pub remove : Bool → Text → Option Text → Result SourceError (Unit {0}) × Option Text
  unfolding retain
  remove writes provider_id file =
      let cfg = load toml file in
      let kept = retain provider_id cfg.sources in
      if length kept == length cfg.sources
      then (err no_source, file)
      else save toml writes (record cfg { sources = kept }) file

  -- Whether a path exists, and whether a URL answers a HEAD request.
  abbrev pub reach : (Text → Bool) → (Text → Bool) → StorageSource → Result SourceError (Unit {0})
  reach exists answers s =
      if bytes_eq s.provider (codes "local")
      then reject_if (not (exists s.bucket)) no_path
      else reject_if
          (not (
            answers (
              if is_empty s.endpoint
              then codes "https://s3.amazonaws.com/" ++ s.bucket
              else trim_end_slashes s.endpoint ++ b'/' ∷ s.bucket)))
          unreachable

  unfoldable pub test :
      (Text → Bool) → (Text → Bool) → Text → Option Text → Result SourceError (Unit {0})
  unfolding find_source trim_end_slashes
  test exists answers provider_id file = do
    s ← ok_or (find_source provider_id (load toml file).sources) no_source
    reach exists answers s

-- ===== src/Client/Sources/Shown.antt =====
-- apps/cli/src/commands/provider.rs: the rows of `fbx datasource list`.
use free_box.Outcome.{unwrap_or}
use free_box.Prelude.{
  Bool, false, ◌||◌, Option, none, some, List, [], ◌∷◌, ◌++◌, map, bytes_eq, if◌then◌else◌,
}
use free_box.Server.Files.Keys.{Text, codes}
use free_box.Texts.{is_empty, to_ascii_lowercase, trim_end_slashes}
use free_box.Client.Session.{default_server}
use free_box.Client.Sources.{StorageSource}

pub record DataSourceRow : Type 0 where
  pub name : Text
  pub provider : Text
  pub location : Text
  pub region : Text
  pub status : Text

abbrev pub server_filesystem : Text
server_filesystem = codes "server local filesystem"

unfoldable pub source_location : StorageSource → Text
unfolding trim_end_slashes
source_location source =
    if bytes_eq source.provider (codes "local")
    then (if is_empty source.bucket then server_filesystem else source.bucket)
    else if is_empty source.endpoint
    then codes "s3://" ++ source.bucket
    else trim_end_slashes source.endpoint ++ b'/' ∷ source.bucket

unfoldable pub configured_source_row : StorageSource → DataSourceRow
unfolding source_location
configured_source_row source = record {
  name = source.name;
  provider = source.provider;
  location = source_location source;
  region = if is_empty source.region then codes "-" else source.region;
  status =
      if bytes_eq source.provider (codes "local") then codes "available" else codes "configured";
}

-- `eq_ignore_ascii_case`
abbrev pub has_local : List StorageSource → Bool
has_local [] = false
has_local (s ∷ ss) = bytes_eq (to_ascii_lowercase s.name) (codes "local") || has_local ss

abbrev pub builtin_row : DataSourceRow
builtin_row = record {
  name = codes "local";
  provider = codes "local";
  location = server_filesystem;
  region = codes "-";
  status = codes "available";
}

unfoldable pub datasource_rows : List StorageSource → List DataSourceRow
unfolding to_ascii_lowercase configured_source_row
datasource_rows configured =
    (if has_local configured then [] else builtin_row ∷ []) ++ map configured_source_row configured

-- `local_datasource_rows`: of no source
abbrev pub local_datasource_rows : List DataSourceRow
local_datasource_rows = datasource_rows []

unfoldable pub server_candidates : Text → List Text
server_candidates server =
    if bytes_eq server default_server
    then codes "http://127.0.0.1:8080" ∷ codes "http://localhost:8080" ∷ []
    else server ∷ []

abbrev pub if_any :
    Option (List DataSourceRow) → Option (List DataSourceRow) → Option (List DataSourceRow)
if_any none rest = rest
if_any (some []) rest = rest
if_any (some (row ∷ rows)) rest = some (row ∷ rows)

-- The loop: a server that does not answer, or has no row, is passed over. `fetch` is the request to
-- `/api/v1/storage/datasources`.
abbrev pub first_rows :
    (Text → Option (List DataSourceRow)) → List Text → Option (List DataSourceRow)
first_rows fetch [] = none
first_rows fetch (c ∷ cs) = if_any (fetch c) (first_rows fetch cs)

-- `list`: what is printed. The configuration file is not read.
unfoldable pub list : (Text → Option (List DataSourceRow)) → Text → List DataSourceRow
unfolding server_candidates datasource_rows
list fetch server = unwrap_or (first_rows fetch (server_candidates server)) local_datasource_rows

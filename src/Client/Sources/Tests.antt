-- ===== src/Client/Sources/Tests.antt =====
-- Storage sources at a concrete file. In the file, each text has its length before it.
use free_box.Prelude.{
  ℕ, zero, suc, ap, ◌∙◌, ◌++◌, length, take, drop, ◌≡◌, refl, true, false, Option, none, some, List,
  [], ◌∷◌, bytes_eq, if◌then◌else◌,
}
use free_box.Outcome.{ok}
use free_box.Server.Files.Keys.{Text, codes}
use free_box.Texts.Find.{take-length_append, drop-length_append}
use free_box.Client.Sources.{
  StorageSource, CliConfig, Toml, Answers, load, add, find_source, source_of,
}
use free_box.Client.Sources.Shown.{datasource_rows, list}
use free_box.Client.Sources.Update.{
  is_unique, add_lem, ReadsBack, has_row, added_source_is_not_listed,
}

abbrev answers : Answers
answers = record {
  kind = 0;
  name = some (codes "mine");
  endpoint = codes "http://localhost:9000";
  bucket = codes "freebox";
  region = none;
}

-- A text with its length before it.
abbrev write_text : Text → Text → Text
write_text t rest = length t ∷ (t ++ rest)

abbrev read_text : Text → Text × Text
read_text [] = ([], [])
read_text (n ∷ xs) = (take n xs, drop n xs)

read_text-write_text : (t rest : Text) → read_text (write_text t rest) ≡ (t, rest)
read_text-write_text t rest = rw (take-length_append t rest, drop-length_append t rest) refl

abbrev write_source : StorageSource → Text → Text
write_source s rest =
    write_text s.name (
      write_text s.provider
        (write_text s.endpoint (write_text s.bucket (write_text s.region rest))))

abbrev write_sources : List StorageSource → Text
write_sources [] = []
write_sources (s ∷ ss) = write_source s (write_sources ss)

abbrev read_source : Text → StorageSource × Text
read_source raw =
    let r1 = read_text raw in
    let r2 = read_text r1.1 in
    let r3 = read_text r2.1 in
    let r4 = read_text r3.1 in
    let r5 = read_text r4.1 in
    (record { name = r1.0; provider = r2.0; endpoint = r3.0; bucket = r4.0; region = r5.0 }, r5.1)

read_source-write_source :
    (s : StorageSource) (rest : Text) → read_source (write_source s rest) ≡ (s, rest)
read_source-write_source s rest =
    rw
      (
        take-length_append s.name _,
        drop-length_append s.name _,
        take-length_append s.provider _,
        drop-length_append s.provider _,
        take-length_append s.endpoint _,
        drop-length_append s.endpoint _,
        take-length_append s.bucket _,
        drop-length_append s.bucket _,
        take-length_append s.region rest,
        drop-length_append s.region rest,
      )
      refl

abbrev read_sources : ℕ → Text → List StorageSource
read_sources zero raw = []
read_sources (suc n) raw = let r = read_source raw in r.0 ∷ read_sources n r.1

read_sources-write_sources :
    (ss : List StorageSource) → read_sources (length ss) (write_sources ss) ≡ ss
read_sources-write_sources [] = refl
read_sources-write_sources (s ∷ ss) =
    ap (λ (r : StorageSource × Text). r.0 ∷ read_sources (length ss) r.1)
      (read_source-write_source s (write_sources ss))
    ∙ ap (λ later. s ∷ later) (read_sources-write_sources ss)

abbrev read_config : Text × Text → Option CliConfig
read_config (server, []) = none
read_config (server, n ∷ raw) = some (record { server = server; sources = read_sources n raw })

abbrev toml : Toml
toml = record {
  from_str = λ raw. read_config (read_text raw);
  to_string_pretty =
      λ cfg. some (write_text cfg.server (length cfg.sources ∷ write_sources cfg.sources));
}

reads : ReadsBack toml
reads cfg = (
  write_text cfg.server (length cfg.sources ∷ write_sources cfg.sources),
  refl,
  rw
      (
        read_text-write_text cfg.server (length cfg.sources ∷ write_sources cfg.sources),
        read_sources-write_sources cfg.sources,
      )
      refl,
)

added_source_is_not_listed_example :
    let s = source_of (codes "minio") answers in
    let sources = (load toml (add toml true (codes "minio") answers none).1).sources in
    (find_source s.name sources ≡ some s)
    × (has_row s.name (datasource_rows sources) ≡ true)
    × (has_row s.name (list (λ candidate. none) (codes "https://freebox.io")) ≡ false)
unfolding source_of bytes_eq
added_source_is_not_listed_example =
    added_source_is_not_listed toml reads (codes "minio") answers none (λ candidate. none)
      (codes "https://freebox.io") refl (λ candidate. refl)

abbrev older : StorageSource
older = record {
  name = codes "mine";
  provider = codes "local";
  endpoint = [];
  bucket = codes "/data";
  region = [];
}

-- a file with another source of the name that is added
abbrev file : Option Text
file = toml.to_string_pretty (record { server = codes "https://freebox.io"; sources = older ∷ [] })

add_lem_example :
    let s = source_of (codes "minio") answers in
    let after = add toml true (codes "minio") answers file in
    let sources = (load toml after.1).sources in
    (after.0 ≡ ok tt)
    × ((name : Text)
        → find_source name sources
          ≡ (if bytes_eq s.name name then some s else find_source name (load toml file).sources))
    × (is_unique sources ≡ true)
add_lem_example = add_lem toml reads (codes "minio") answers file refl

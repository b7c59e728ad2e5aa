-- ===== src/Client/Sources/Update.antt =====
-- Adding and removing storage sources, apps/cli/src/commands/provider.rs.
use free_box.Prelude.{
  ◌≤◌, ◌<◌, ◌≡◌, refl, sym, ap, ◌∙◌, Bool, true, false, not, ◌&&◌, ◌||◌, Option, none, some, List,
  [], ◌∷◌, ◌++◌, map, length, bytes_eq, bytes_eq_refl, bytes_eq_sound, bytes_eq-ne, Bool-cases,
  false≢true, inl, inr, ◌==◌, if◌then◌else◌, arith,
}
use free_box.Outcome.{ok, err}
use free_box.Server.Files.Keys.{Text, codes}
use free_box.Client.Sources.{
  StorageSource, CliConfig, Toml, no_source, load, save, retain, find_source, Answers, source_of,
  with_source, add, remove,
}
use free_box.Client.Sources.Shown.{
  DataSourceRow, configured_source_row, datasource_rows, server_candidates, first_rows, list,
}

-- What is written is read back.
abbrev pub ReadsBack : Toml → Type 0
ReadsBack toml =
    (cfg : CliConfig)
    → (text : Text) × (toml.to_string_pretty cfg ≡ some text) × (toml.from_str text ≡ some cfg)

abbrev pub has_name : Text → List StorageSource → Bool
has_name name [] = false
has_name name (s ∷ ss) = bytes_eq s.name name || has_name name ss

abbrev pub is_unique : List StorageSource → Bool
is_unique [] = true
is_unique (s ∷ ss) = not (has_name s.name ss) && is_unique ss

find_source-retain_self :
    (name : Text) (ss : List StorageSource) → find_source name (retain name ss) ≡ none
unfolding find_source retain
find_source-retain_self name [] = refl
find_source-retain_self name (s ∷ ss) = ground (arith, find_source-retain_self name ss)

find_source-retain_other :
    (name other : Text) (ss : List StorageSource)
    → bytes_eq name other ≡ false
    → find_source other (retain name ss) ≡ find_source other ss
unfolding find_source retain
find_source-retain_other name other [] h = refl
find_source-retain_other name other (s ∷ ss) h =
    let rest = find_source-retain_other name other ss h in
    elim (Bool-cases (bytes_eq s.name name)) [
      | inl e ↦
          let differ : bytes_eq s.name other ≡ false = rw (bytes_eq_sound s.name name e) h in
          rw (e, differ) rest
      | inr e ↦ rw e (ground (arith, rest))
    ]

find_source-append :
    (name : Text) (ss : List StorageSource) (s : StorageSource)
    → find_source name ss ≡ none
    → find_source name (ss ++ s ∷ []) ≡ (if bytes_eq s.name name then some s else none)
unfolding find_source
find_source-append name [] s h = refl
find_source-append name (t ∷ ss) s h = ground (arith, find_source-append name ss s)

find_source-append_other :
    (name : Text) (ss : List StorageSource) (s : StorageSource)
    → bytes_eq s.name name ≡ false
    → find_source name (ss ++ s ∷ []) ≡ find_source name ss
unfolding find_source
find_source-append_other name [] s h = rw h refl
find_source-append_other name (t ∷ ss) s h = ground (arith, find_source-append_other name ss s h)

-- The source that takes the place of those with its name.
find_source-replaced :
    (s : StorageSource) (name : Text) (ss : List StorageSource)
    → find_source name (retain s.name ss ++ s ∷ [])
      ≡ (if bytes_eq s.name name then some s else find_source name ss)
find_source-replaced s name ss = elim (Bool-cases (bytes_eq s.name name)) [
  | inl e ↦
      let same = bytes_eq_sound s.name name e in
      rw
        (
          ← same,
          find_source-append s.name (retain s.name ss) s (find_source-retain_self s.name ss),
          bytes_eq_refl s.name,
        )
        refl
  | inr e ↦ rw e (
      find_source-append_other name (retain s.name ss) s e
      ∙ find_source-retain_other s.name name ss e)
]

has_name-retain :
    (name other : Text) (ss : List StorageSource)
    → has_name other ss ≡ false
    → has_name other (retain name ss) ≡ false
unfolding retain
has_name-retain name other [] h = refl
has_name-retain name other (s ∷ ss) h = ground (arith, has_name-retain name other ss)

is_unique-retain :
    (name : Text) (ss : List StorageSource)
    → is_unique ss ≡ true
    → is_unique (retain name ss) ≡ true
unfolding retain
is_unique-retain name [] h = refl
is_unique-retain name (s ∷ ss) h =
    ground (arith, is_unique-retain name ss, has_name-retain name s.name ss)

has_name-append :
    (name : Text) (ss : List StorageSource) (s : StorageSource)
    → has_name name (ss ++ s ∷ []) ≡ (has_name name ss || bytes_eq s.name name)
has_name-append name [] s = ground arith
has_name-append name (t ∷ ss) s = ground (arith, has_name-append name ss s)

has_name-retain_self :
    (name : Text) (ss : List StorageSource) → has_name name (retain name ss) ≡ false
unfolding retain
has_name-retain_self name [] = refl
has_name-retain_self name (s ∷ ss) = ground (arith, has_name-retain_self name ss)

flipped : (xs ys : Text) → bytes_eq xs ys ≡ false → bytes_eq ys xs ≡ false
flipped xs ys h =
    bytes_eq-ne ys xs (λ e. false≢true (sym h ∙ ap (bytes_eq xs) e ∙ bytes_eq_refl xs))

is_unique-append :
    (ss : List StorageSource) (s : StorageSource)
    → has_name s.name ss ≡ false
    → is_unique ss ≡ true
    → is_unique (ss ++ s ∷ []) ≡ true
is_unique-append [] s h k = refl
is_unique-append (t ∷ ss) s h k =
    let rest = is_unique-append ss s (ground arith) (ground arith) in
    let differ : bytes_eq s.name t.name ≡ false = flipped t.name s.name (ground arith) in
    rw (has_name-append t.name ss s, differ, rest) (ground arith)

abbrev pub has_row : Text → List DataSourceRow → Bool
has_row name [] = false
has_row name (r ∷ rs) = bytes_eq r.name name || has_row name rs

first_rows-offline :
    (fetch : Text → Option (List DataSourceRow)) (candidates : List Text)
    → ((candidate : Text) → fetch candidate ≡ none)
    → first_rows fetch candidates ≡ none
first_rows-offline fetch [] offline = refl
first_rows-offline fetch (c ∷ cs) offline = rw (offline c) (first_rows-offline fetch cs offline)

-- The list without a server has one row.
list-offline :
    (fetch : Text → Option (List DataSourceRow)) (server name : Text)
    → bytes_eq (codes "local") name ≡ false
    → ((candidate : Text) → fetch candidate ≡ none)
    → has_row name (list fetch server) ≡ false
unfolding list
list-offline fetch server name named offline =
    rw (first_rows-offline fetch (server_candidates server) offline, named) refl

has_row-configured :
    (name : Text) (ss : List StorageSource)
    → has_row name (map configured_source_row ss) ≡ has_name name ss
unfolding configured_source_row
has_row-configured name [] = refl
has_row-configured name (s ∷ ss) = ap (λ b. bytes_eq s.name name || b) (has_row-configured name ss)

has_row-append :
    (name : Text) (rs qs : List DataSourceRow)
    → has_row name qs ≡ true
    → has_row name (rs ++ qs) ≡ true
has_row-append name [] qs h = h
has_row-append name (r ∷ rs) qs h = ground (arith, has_row-append name rs qs h)

has_row-datasource_rows :
    (name : Text) (ss : List StorageSource)
    → has_name name ss ≡ true
    → has_row name (datasource_rows ss) ≡ true
unfolding datasource_rows
has_row-datasource_rows name ss h =
    has_row-append name _ (map configured_source_row ss) (has_row-configured name ss ∙ h)

has_name-found :
    (name : Text) (ss : List StorageSource) (s : StorageSource)
    → find_source name ss ≡ some s
    → has_name name ss ≡ true
unfolding find_source
has_name-found name [] s h = cc h
has_name-found name (t ∷ ss) s h = ground (arith, has_name-found name ss s)

retain-missing :
    (name : Text) (ss : List StorageSource) → has_name name ss ≡ false → retain name ss ≡ ss
unfolding retain
retain-missing name [] h = refl
retain-missing name (s ∷ ss) h = ground (arith, retain-missing name ss)

length-retain_le : (name : Text) (ss : List StorageSource) → length (retain name ss) ≤ length ss
unfolding retain
length-retain_le name [] = omega arith
length-retain_le name (s ∷ ss) = ground (arith, length-retain_le name ss)

length-retain :
    (name : Text) (ss : List StorageSource)
    → has_name name ss ≡ true
    → length (retain name ss) < length ss
unfolding retain
length-retain name [] h = cc h
length-retain name (s ∷ ss) h = ground (arith, length-retain_le name ss, length-retain name ss)

module _ (toml : Toml) (reads : ReadsBack toml) where
  saved :
      (cfg : CliConfig) (file : Option Text)
      → ((save toml true cfg file).0 ≡ ok tt) × (load toml (save toml true cfg file).1 ≡ cfg)
  saved cfg file = let (text, written, read) = reads cfg in rw (written, read) (refl, refl)

  -- Take a configuration file that is written and read back as it is, and in which no two sources have one
  -- name. Adding a source succeeds, and no two sources have one name afterwards: its name finds the
  -- source, and every other name finds what it found before.
  pub add_lem :
      (provider_type : Text) (answers : Answers) (file : Option Text)
      → is_unique (load toml file).sources ≡ true
      → let s = source_of provider_type answers in
        let after = add toml true provider_type answers file in
        let sources = (load toml after.1).sources in
        (after.0 ≡ ok tt)
        × ((name : Text)
            → find_source name sources ≡ (
                if bytes_eq s.name name then some s else find_source name (load toml file).sources))
        × (is_unique sources ≡ true)
  unfolding add
  add_lem provider_type answers file unique =
      let s = source_of provider_type answers in
      let ss = (load toml file).sources in
      let kept = retain s.name ss in
      let (good, read) = saved (with_source s (load toml file)) file in
      (
        good,
        λ name. rw read (find_source-replaced s name ss),
        rw read (
            is_unique-append kept s (has_name-retain_self s.name ss)
              (is_unique-retain s.name ss unique)),
      )

  -- Take a configuration file that is written and read back as it is. Removing a name that no source has is
  -- an error and changes nothing; removing another succeeds: the name finds nothing afterwards, and every
  -- other name finds what it found before.
  pub remove_lem :
      (name : Text) (file : Option Text)
      → let before_sources = (load toml file).sources in
        let after = remove toml true name file in
        let sources = (load toml after.1).sources in
        (has_name name before_sources ≡ false → after ≡ (err no_source, file))
        × (has_name name before_sources ≡ true
            → (after.0 ≡ ok tt)
              × (find_source name sources ≡ none)
              × ((other : Text)
                  → bytes_eq name other ≡ false
                  → find_source other sources ≡ find_source other before_sources))
  unfolding remove
  remove_lem name file =
      let cfg = load toml file in
      let kept = retain name cfg.sources in
      let (good, read) = saved (record cfg { sources = kept }) file in
      (
        λ missing. rw (retain-missing name cfg.sources missing) (ground arith),
        λ there.
            let fewer : (length kept == length cfg.sources) ≡ false =
              ground (arith, length-retain name cfg.sources there) in
            rw fewer (
              good,
              rw read (find_source-retain_self name cfg.sources),
              λ other differ. rw read (find_source-retain_other name other cfg.sources differ),
            ),
      )

  just_added :
      (provider_type : Text) (answers : Answers) (file : Option Text)
      → let s = source_of provider_type answers in
        find_source s.name (load toml (add toml true provider_type answers file).1).sources ≡ some s
  unfolding add
  just_added provider_type answers file =
      let s = source_of provider_type answers in
      let (good, read) = saved (with_source s (load toml file)) file in
      rw (read, find_source-replaced s s.name (load toml file).sources, bytes_eq_refl s.name) refl

  -- Take a configuration file that is written and read back as it is, and a server that can not be reached.
  -- A source with a name other than `local` that was added is found by its name, and would be a row if the
  -- file's sources were shown; but the list that is shown has no row of that name.
  pub added_source_is_not_listed :
      (provider_type : Text) (answers : Answers) (file : Option Text)
      (fetch : Text → Option (List DataSourceRow)) (server : Text)
      → bytes_eq (codes "local") (source_of provider_type answers).name ≡ false
      → ((candidate : Text) → fetch candidate ≡ none)
      → let s = source_of provider_type answers in
        let sources = (load toml (add toml true provider_type answers file).1).sources in
        (find_source s.name sources ≡ some s)
        × (has_row s.name (datasource_rows sources) ≡ true)
        × (has_row s.name (list fetch server) ≡ false)
  added_source_is_not_listed provider_type answers file fetch server named offline =
      let s = source_of provider_type answers in
      let sources = (load toml (add toml true provider_type answers file).1).sources in
      let found : find_source s.name sources ≡ some s = just_added provider_type answers file in
      (
        found,
        has_row-datasource_rows s.name sources (has_name-found s.name sources s found),
        list-offline fetch server s.name named offline,
      )

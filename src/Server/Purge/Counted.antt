-- ===== src/Server/Purge/Counted.antt =====
-- `purge_orphaned_uploads` of apps/server/src/main.rs keeps the counters right and the files whole.
use free_box.Prelude.{
  ℕ, ◌≡◌, refl, ◌∙◌, sym, subst, ap, true, false, none, some, List, [], ◌∷◌, All, Bool-cases, inl,
  inr, arith,
}
use free_box.Server.Files.Keys.{Text, UuidText}
use free_box.Server.Files.State.{Store, Upload, FileRow, has_file, is_some}
use free_box.Server.Files.Upload.Counting.{count_below-same, stored_chunks}
use free_box.Server.Files.Upload.Chunk.{IsCounted, IsStored}
use free_box.Server.Purge.{Services, is_orphaned, purge_orphaned_uploads}
use free_box.Server.Purge.Keeps.{
  ListsUnder, IsSpared, Spared-self, purge_orphaned_uploads-IsSpared, files-purge_orphaned_uploads,
}
use free_box.Server.Purge.Clears.{IsWithin, Works, has_id, purge_orphaned_uploads-clears}

-- No file has a row in the table of uploads.
abbrev pub IsApart : Store → Type 0
IsApart s = (id : ℕ) → has_file id s.files ≡ true → s.uploads id ≡ none

module _ (uuid : UuidText) where
  stored_chunks-IsSpared :
      (id n : ℕ) (s t : Store)
      → IsSpared uuid id s t
      → stored_chunks uuid t id n ≡ stored_chunks uuid s id n
  stored_chunks-IsSpared id n s t h = count_below-same _ _ n (λ i l. ap is_some (h.chunks i))

  IsStored-IsSpared :
      (f : FileRow) (s t : Store) → IsSpared uuid f.id s t → IsStored uuid s f → IsStored uuid t f
  IsStored-IsSpared f s t h k = (k.0, λ i l. ap is_some (h.chunks i) ∙ k.1 i l)

  All-IsStored-purged :
      (s t : Store) (fs : List FileRow)
      → ((id : ℕ) → has_file id fs ≡ true → IsSpared uuid id s t)
      → All (IsStored uuid s) fs
      → All (IsStored uuid t) fs
  All-IsStored-purged s t [] spared h = tt
  All-IsStored-purged s t (f ∷ fs) spared h = (
    IsStored-IsSpared f s t (spared f.id (ground arith)) h.0,
    All-IsStored-purged s t fs (λ id here. spared id (ground arith)) h.1,
  )

  unfetched :
      (services : Services) (now : ℕ) (created_at : ℕ → ℕ) (ids : List ℕ) (s : Store) (id : ℕ)
      → services.fetch_all ≡ false
      → IsSpared uuid id s (purge_orphaned_uploads services uuid now created_at ids s)
  unfolding purge_orphaned_uploads
  unfetched services now created_at ids s id f = rw f (Spared-self uuid id s)

  unlisted :
      (now : ℕ) (created_at : ℕ → ℕ) (s : Store) (id : ℕ)
      → s.uploads id ≡ none
      → is_orphaned now created_at s id ≡ false
  unfolding is_orphaned
  unlisted now created_at s id h = rw h refl

  module _ (services : Services) (lists : ListsUnder services) (known : List Text)
      (works : Works services known) where
    -- A row that a purge leaves is the row of an upload that it spares.
    survivor :
        (now : ℕ) (created_at : ℕ → ℕ) (ids : List ℕ) (s : Store) (id : ℕ) (u : Upload)
        → IsWithin known s
        → ((id : ℕ) → services.executes id ≡ true)
        → ((id : ℕ) → is_some (s.uploads id) ≡ true → has_id id ids ≡ true)
        → (purge_orphaned_uploads services uuid now created_at ids s).uploads id ≡ some u
        → IsSpared uuid id s (purge_orphaned_uploads services uuid now created_at ids s)
    unfolding is_orphaned
    survivor now created_at ids s id u within executed listed here =
        elim (Bool-cases (is_orphaned now created_at s id)) [
          | inr e ↦ purge_orphaned_uploads-IsSpared uuid services lists now created_at ids s id e
          | inl e ↦ elim (Bool-cases services.fetch_all) [
            | inr f ↦ unfetched services now created_at ids s id f
            | inl f ↦
                let there : is_some (s.uploads id) ≡ true = ground arith in
                let gone =
                  (purge_orphaned_uploads-clears uuid services known works now created_at ids s id
                    within f (executed id) (listed id there) e).0 in
                cc (gone, here)
          ]
        ]

    -- Take a state with objects at keys of a list, in which every counter is the number of its chunks that
    -- are stored, the files are whole and no file has a row in the table of uploads. A purge in which the
    -- calls after the SELECT work leaves such a state.
    pub purge_orphaned_uploads-IsCounted :
        (now : ℕ) (created_at : ℕ → ℕ) (ids : List ℕ) (s : Store)
        → IsWithin known s
        → ((id : ℕ) → services.executes id ≡ true)
        → ((id : ℕ) → is_some (s.uploads id) ≡ true → has_id id ids ≡ true)
        → IsCounted uuid s
        → IsApart s
        → let t = purge_orphaned_uploads services uuid now created_at ids s in
          IsCounted uuid t × IsApart t
    purge_orphaned_uploads-IsCounted now created_at ids s within executed listed c apart =
        let t = purge_orphaned_uploads services uuid now created_at ids s in
        let same = files-purge_orphaned_uploads uuid services now created_at ids s in
        let left = λ (id : ℕ) (u : Upload) (here : t.uploads id ≡ some u).
          survivor now created_at ids s id u within executed listed here in
        let spared = λ (id : ℕ) (here : has_file id s.files ≡ true).
          purge_orphaned_uploads-IsSpared uuid services lists now created_at ids s id
            (unlisted now created_at s id (apart id here)) in
        (
          record {
            counted = λ id u here.
                let spare = left id u here in
                c.counted id u (sym spare.row ∙ here)
                ∙ sym (stored_chunks-IsSpared id u.total_chunks s t spare);
            small = λ id u here. c.small id u (sym (left id u here).row ∙ here);
            stored =
                subst (All (IsStored uuid t)) (sym same)
                  (All-IsStored-purged s t s.files spared c.stored);
          },
          λ id here.
              let before : has_file id s.files ≡ true = ap (has_file id) (sym same) ∙ here in
              (spared id before).row ∙ apart id before,
        )

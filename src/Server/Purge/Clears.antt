-- ===== src/Server/Purge/Clears.antt =====
-- `purge_orphaned_uploads` of apps/server/src/main.rs removes what it is meant to, where every call works.
use free_box.Outcome.{unwrap_or}
use free_box.Prelude.{
  ==_iff, if_either, false≢true, sym, ℕ, ◌≡◌, refl, ◌∙◌, ap, Bool, true, false, Option, none, List,
  [], ◌∷◌, All, bytes_eq, arith, ◌==◌, if◌then◌else◌, Bool-cases, inl, inr,
}
use free_box.Server.Files.Keys.{Text, UuidText, chunk_storage_key, pad8}
use free_box.Server.Files.State.{Store, Upload}
use free_box.Server.Files.Upload.{remove_upload}
use free_box.Server.Purge.{
  Services, delete_logged, chunks_prefix, delete_objects, purge_blobs, purge_upload, purge_rows,
  is_orphaned, select_ids, purge_orphaned_uploads,
}
use free_box.Server.Purge.Keeps.{IsUnder, chunks_prefix-chunk, tables-delete_objects}

-- The objects of a state are at keys of a list.
abbrev pub IsWithin : List Text → Store → Type 0
IsWithin known s = (key : Text) → All (λ k. bytes_eq k key ≡ false) known → s.objects key ≡ none

-- Every deletion works, and of the states whose objects are at given keys an object that is under a prefix
-- is listed.
pub record Works (services : Services) (known : List Text) : Type 0 where
  pub deleted : (key : Text) → services.deletes key ≡ true
  pub listed :
      (prefix key : Text) (s : Store)
      → IsWithin known s
      → IsUnder prefix key
      → All (λ k. bytes_eq k key ≡ false) (unwrap_or (services.list prefix s) [])
      → s.objects key ≡ none

-- No row and no chunk is left of an upload.
abbrev pub HasNoChunk : UuidText → ℕ → Store → Type 0
HasNoChunk uuid id s = (i : ℕ) → s.objects (chunk_storage_key uuid id i) ≡ none

abbrev pub IsGone : UuidText → ℕ → Store → Type 0
IsGone uuid id s = (s.uploads id ≡ none) × HasNoChunk uuid id s

abbrev pub has_id : ℕ → List ℕ → Bool
has_id id [] = false
has_id id (j ∷ js) = if j == id then true else has_id id js

delete_logged-none :
    (deleted : Bool) (key k : Text) (s : Store)
    → s.objects k ≡ none
    → (delete_logged deleted key s).objects k ≡ none
delete_logged-none true key k s h = ground arith
delete_logged-none false key k s h = h

-- Deletions put nothing back.
delete_objects-none :
    (deletes : Text → Bool) (k : Text) (keys : List Text) (s : Store)
    → s.objects k ≡ none
    → (delete_objects deletes keys s).objects k ≡ none
unfolding delete_objects
delete_objects-none deletes k [] s h = h
delete_objects-none deletes k (key ∷ keys) s h =
    delete_objects-none deletes k keys _ (delete_logged-none (deletes key) key k s h)

delete_logged-clears :
    (deleted : Bool) (key k : Text) (s : Store)
    → deleted ≡ true
    → bytes_eq key k ≡ true
    → (delete_logged deleted key s).objects k ≡ none
delete_logged-clears true key k s works e = rw e refl
delete_logged-clears false key k s works e = cc works

delete_objects-clears :
    (deletes : Text → Bool) (k : Text) (keys : List Text) (s : Store)
    → ((key : Text) → deletes key ≡ true)
    → (All (λ key. bytes_eq key k ≡ false) keys → s.objects k ≡ none)
    → (delete_objects deletes keys s).objects k ≡ none
unfolding delete_objects
delete_objects-clears deletes k [] s works h = h tt
delete_objects-clears deletes k (key ∷ keys) s works h = elim (Bool-cases (bytes_eq key k)) [
  | inl e ↦
      delete_objects-none deletes k keys _
        (delete_logged-clears (deletes key) key k s (works key) e)
  | inr e ↦
      delete_objects-clears deletes k keys _ works
        (λ rest. delete_logged-none (deletes key) key k s (h (e, rest)))
]

uploads-remove_upload :
    (deleted : Bool) (a id : ℕ) (s : Store)
    → s.uploads id ≡ none
    → (remove_upload deleted a s).1.uploads id ≡ none
uploads-remove_upload true a id s h = ground arith
uploads-remove_upload false a id s h = h

pub objects-remove_upload :
    (deleted : Bool) (a : ℕ) (s : Store) → (remove_upload deleted a s).1.objects ≡ s.objects
objects-remove_upload true a s = refl
objects-remove_upload false a s = refl

uploads-removed :
    (deleted : Bool) (id : ℕ) (s : Store)
    → deleted ≡ true
    → (remove_upload deleted id s).1.uploads id ≡ none
uploads-removed true id s works = ground arith
uploads-removed false id s works = cc works

module _ (uuid : UuidText) (services : Services) where
  -- A purge puts no object back.
  purge_upload-none :
      (a : ℕ) (key : Text) (s : Store)
      → s.objects key ≡ none
      → (purge_upload services uuid a s).objects key ≡ none
  unfolding purge_upload purge_blobs
  purge_upload-none a key s h =
      let keys = unwrap_or (services.list (chunks_prefix uuid a) s) [] in
      let after = delete_objects services.deletes keys s in
      ap (λ (f : Text → Option (List ℕ)). f key)
        (objects-remove_upload (services.executes a) a after)
      ∙ delete_objects-none services.deletes key keys s h

  purge_upload-IsGone :
      (a id : ℕ) (s : Store) → IsGone uuid id s → IsGone uuid id (purge_upload services uuid a s)
  unfolding purge_upload purge_blobs
  purge_upload-IsGone a id s h =
      let keys = unwrap_or (services.list (chunks_prefix uuid a) s) [] in
      (
        uploads-remove_upload (services.executes a) a id (delete_objects services.deletes keys s) (
            ap (λ (f : ℕ → Option Upload). f id) (tables-delete_objects services.deletes keys s).0
            ∙ h.0),
        λ i. purge_upload-none a (chunk_storage_key uuid id i) s (h.1 i),
      )

  purge_rows-IsGone :
      (ids : List ℕ) (id : ℕ) (s : Store)
      → IsGone uuid id s
      → IsGone uuid id (purge_rows services uuid ids s)
  unfolding purge_rows
  purge_rows-IsGone [] id s h = h
  purge_rows-IsGone (a ∷ ids) id s h =
      purge_rows-IsGone ids id (purge_upload services uuid a s) (purge_upload-IsGone a id s h)

  module _ (known : List Text) (works : Works services known) where
    -- The blobs go even if the row does not.
    pub purge_blobs-clears :
        (id : ℕ) (s : Store)
        → IsWithin known s
        → HasNoChunk uuid id (purge_blobs services uuid id s)
    unfolding purge_blobs
    purge_blobs-clears id s within i =
        let prefix = chunks_prefix uuid id in
        let key = chunk_storage_key uuid id i in
        delete_objects-clears services.deletes key (unwrap_or (services.list prefix s) []) s
          works.deleted (works.listed prefix key s within (pad8 i, chunks_prefix-chunk uuid id i))

    purge_upload-clears :
        (id : ℕ) (s : Store)
        → IsWithin known s
        → services.executes id ≡ true
        → IsGone uuid id (purge_upload services uuid id s)
    unfolding purge_upload
    purge_upload-clears id s within h =
        let after = purge_blobs services uuid id s in
        (
          uploads-removed (services.executes id) id after h,
          λ i.
              ap (λ (f : Text → Option (List ℕ)). f (chunk_storage_key uuid id i))
                (objects-remove_upload (services.executes id) id after)
              ∙ purge_blobs-clears id s within i,
        )

    pub purge_rows-clears :
        (ids : List ℕ) (id : ℕ) (s : Store)
        → IsWithin known s
        → has_id id ids ≡ true
        → services.executes id ≡ true
        → IsGone uuid id (purge_rows services uuid ids s)
    unfolding purge_rows
    purge_rows-clears [] id s within here h = cc here
    purge_rows-clears (a ∷ ids) id s within here h = elim (Bool-cases (a == id)) [
      | inl e ↦
          let same : a ≡ id = (==_iff a id).0 e in
          purge_rows-IsGone ids id _ (rw same (purge_upload-clears id s within h))
      | inr e ↦
          purge_rows-clears ids id _ (λ key out. purge_upload-none a key s (within key out))
            (rw e at here) h
    ]

  pub has_id-select_ids :
      (p : ℕ → Bool) (id : ℕ) (ids : List ℕ)
      → p id ≡ true
      → has_id id ids ≡ true
      → has_id id (select_ids p ids) ≡ true
  has_id-select_ids p id [] h here = here
  has_id-select_ids p id (a ∷ ids) h here = elim (Bool-cases (a == id)) [
    | inl e ↦
        let same : a ≡ id = (==_iff a id).0 e in
        let chosen : p a ≡ true = ap p same ∙ h in rw chosen (rw e refl)
    | inr e ↦
        let rest = has_id-select_ids p id ids h (rw e at here) in
        if_either (λ js. has_id id js ≡ true) (p a) _ _ (λ _. rw e rest) (λ _. rest)
  ]

  -- Take objects at keys of a list, a storage provider that lists those under a prefix and deletes what it
  -- is asked to, and an orphaned upload. If the rows are fetched and the row's deletion works, a purge
  -- leaves neither the row nor a chunk of it.
  pub purge_orphaned_uploads-clears :
      (known : List Text)
      → Works services known
      → (now : ℕ) (created_at : ℕ → ℕ) (ids : List ℕ) (s : Store) (id : ℕ) → IsWithin known s
      → services.fetch_all ≡ true
      → services.executes id ≡ true
      → has_id id ids ≡ true
      → is_orphaned now created_at s id ≡ true
      → IsGone uuid id (purge_orphaned_uploads services uuid now created_at ids s)
  unfolding purge_orphaned_uploads
  purge_orphaned_uploads-clears known works now created_at ids s id within fetched executed here
        old =
      let orphaned = is_orphaned now created_at s in
      let chosen = has_id-select_ids orphaned id ids old here in
      if_either (IsGone uuid id) services.fetch_all _ s
        (λ _. purge_rows-clears known works (select_ids orphaned ids) id s within chosen executed)
        (λ no. absurd (false≢true (sym no ∙ fetched)))

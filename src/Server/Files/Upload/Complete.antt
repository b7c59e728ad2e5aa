-- ===== src/Server/Files/Upload/Complete.antt =====
-- Phase 3 of an upload, `upload_complete` of apps/server/src/api/files.rs.
use free_box.Prelude.{
  ℕ, ◌≤◌, ◌<◌, ◌≡◌, inl, inr, Bool, true, false, none, some, arith, ltb, List, [], ◌∷◌, ◌++◌, All,
}
use free_box.Outcome.{Result, ok, err}
use free_box.Server.Error.{AppError, not_found, bad_request}
use free_box.Server.Handler.{pure, ◌>>◌, await_rule, require_rule, reject_rule}
use free_box.Server.Files.Keys.{UuidText, chunk_storage_key}
use free_box.Server.Files.State.{
  Store, Upload, FileRow, set_upload, set_upload-cases, object_exists, find_upload, has_file,
}
use free_box.Server.Files.Upload.{upload_complete, remove_upload, promoted, with_file}
use free_box.Server.Files.Upload.Counting.{count_below-all}
use free_box.Server.Files.Upload.Chunk.{IsCounted, IsStored, owned_row}

module _ (uuid : UuidText) where
  All-IsStored-concat :
      (s : Store) (fs : List FileRow) (f : FileRow)
      → All (IsStored uuid s) fs
      → IsStored uuid s f
      → All (IsStored uuid s) (fs ++ f ∷ [])
  All-IsStored-concat s [] f h k = (k, tt)
  All-IsStored-concat s (g ∷ fs) f h k = (h.0, All-IsStored-concat s fs f h.1 k)

  IsCounted-with_file :
      (s : Store) (f : FileRow)
      → IsCounted uuid s
      → IsStored uuid s f
      → IsCounted uuid (with_file f s)
  IsCounted-with_file s f c k = record {
    counted = c.counted;
    small = c.small;
    stored = All-IsStored-concat s s.files f c.stored k;
  }

  IsCounted-remove_upload :
      (deleted : Bool) (id : ℕ) (s : Store)
      → IsCounted uuid s
      → IsCounted uuid (remove_upload deleted id s).1
  IsCounted-remove_upload false id s c = c
  IsCounted-remove_upload true id s c = record {
    counted = λ j u e. elim (set_upload-cases id j none s u e) [
      | inl (p, q) ↦ cc q
      | inr (ne, q) ↦ c.counted j u q
    ];
    small = λ j u e. elim (set_upload-cases id j none s u e) [
      | inl (p, q) ↦ cc q
      | inr (ne, q) ↦ c.small j u q
    ];
    stored = c.stored;
  }

  remove_rule :
      (deleted : Bool) (id : ℕ) (s : Store)
      → IsCounted uuid (remove_upload deleted id s).1
      → IsCounted uuid ((remove_upload deleted id >> pure id) s).1
  remove_rule true id s h = h
  remove_rule false id s h = h

  -- A full counter means that every chunk is there.
  pub IsStored-promoted :
      (s : Store) (now user id : ℕ) (u : Upload)
      → IsCounted uuid s
      → s.uploads id ≡ some u
      → u.total_chunks ≤ u.chunks_received
      → IsStored uuid s (promoted now user id u)
  IsStored-promoted s now user id u c here full = (
    c.small id u here,
    λ i l.
        count_below-all (λ i. object_exists (chunk_storage_key uuid id i) s) u.total_chunks i
          (omega (arith, c.counted id u here)) l,
  )

  -- Phase 3 promotes an upload only if all its chunks are stored: whatever calls fail, it keeps the
  -- counters right and the files whole.
  pub upload_complete-IsCounted :
      (io : ℕ → Bool) (now user id : ℕ) (s : Store)
      → IsCounted uuid s
      → IsCounted uuid (upload_complete io now user id s).1
  unfolding upload_complete
  upload_complete-IsCounted io now user id s c =
      let P : Result AppError ℕ × Store → Type 0 = λ r. IsCounted uuid r.1 in
      await_rule P (io 0) _ s (λ _. c)
        (λ _.
          require_rule P (find_upload id user s) not_found _ s (λ _. c)
            (λ u found.
              reject_rule P (ltb u.chunks_received u.total_chunks) _ _ s (λ _. c)
                (λ full.
                  await_rule P (io 1) _ s (λ _. c)
                    (λ _.
                      reject_rule P (has_file id s.files) _ _ s (λ _. c)
                        (λ _.
                          let row = promoted now user id u in
                          let here = owned_row user (s.uploads id) u found in
                          let whole = IsStored-promoted s now user id u c here (ground arith) in
                          let next = IsCounted-with_file s row c whole in
                          remove_rule (io 2) id (with_file row s)
                            (IsCounted-remove_upload (io 2) id (with_file row s) next))))))

-- What phase 3 answers, on every branch, where the best-effort DELETE works: not found for an upload
-- that is not the user's, bad request while chunks are missing, and otherwise the id of the file,
-- whose row is appended while the staged row goes.
pub upload_complete_lem :
    (now user id : ℕ) (s : Store)
    → (find_upload id user s ≡ none
        → upload_complete (λ _. true) now user id s ≡ (err not_found, s))
      × ((u : Upload)
          → find_upload id user s ≡ some u
          → u.chunks_received < u.total_chunks
          → upload_complete (λ _. true) now user id s ≡ (err bad_request, s))
      × ((u : Upload)
          → find_upload id user s ≡ some u
          → u.total_chunks ≤ u.chunks_received
          → has_file id s.files ≡ false
          → upload_complete (λ _. true) now user id s
            ≡ (ok id, set_upload id none (with_file (promoted now user id u) s)))
unfolding upload_complete
upload_complete_lem now user id s =
    (λ h. ground arith, λ u h lt. ground arith, λ u h le free. ground arith)

-- ===== src/Server/Files/Upload/Behind.antt =====
-- Uploads of apps/server/src/api/files.rs whose counter is short of the chunks that are stored: no request of
-- the upload API catches up.
use free_box.Prelude.{
  ℕ, ◌+◌, ◌<◌, ◌≡◌, ◌≢◌, inl, inr, refl, ap, sym, ◌∙◌, Bool, true, false, Option, none, some, arith,
  if_either, Bool-cases, ltb, ◌==◌, ==_iff, false≢true,
}
use free_box.Outcome.{Result, ok, err}
use free_box.Server.Error.{AppError, internal, not_found, bad_request}
use free_box.Server.Handler.{pure, ◌>>◌, continue, require_rule, await_rule, reject_rule, if_rule}
use free_box.Server.Files.Keys.{Text, UuidText, chunk_storage_key}
use free_box.Server.Files.State.{
  Body, Store, Upload, FileRow, has_file, set_upload, put_object, object_exists, find_upload,
}
use free_box.Server.Files.Upload.{
  taken_part, UploadInitRequest, upload_init, upload_chunk, commit_chunk, upload_complete,
  remove_upload, promoted, with_file,
}
use free_box.Server.Files.Upload.Counting.{
  count_below-le, stored_chunks, stored_chunks-put_new, stored_chunks-le-put,
}
use free_box.Server.Files.Upload.Init.{accepted, staged, upload_init_lem}
use free_box.Server.Files.Upload.Chunk.{put_chunk_rule, probe_chunk-cases, owned_row}

ne→== : (a b : ℕ) → a ≢ b → (a == b) ≡ false
ne→== a b h = ground arith

remove_cases {ℓ} :
    (P : Result AppError ℕ × Store → Type ℓ) (deleted : Bool) (id : ℕ) (s : Store)
    → P (ok id, set_upload id none s)
    → P (ok id, s)
    → P ((remove_upload deleted id >> pure id) s)
remove_cases P true id s gone kept = gone
remove_cases P false id s gone kept = kept

module _ (uuid : UuidText) where
  -- The counter of upload `id` is short of the chunks that are stored.
  pub record IsBehind (id : ℕ) (s : Store) : Type 0 where
    pub row : Upload
    pub here : s.uploads id ≡ some row
    pub small : row.total_chunks < 2147483648
    pub behind : row.chunks_received < stored_chunks uuid s id row.total_chunks

  pub IsBehind-put :
      (id : ℕ) (key : Text) (body : Body) (s : Store)
      → IsBehind id s
      → IsBehind id (put_object key body s)
  IsBehind-put id key body s b = record {
    row = b.row;
    here = b.here;
    small = b.small;
    behind = omega (arith, b.behind, stored_chunks-le-put uuid s key id b.row.total_chunks body);
  }

  -- A counted write: the count of stored chunks rises as well, if the chunk is in range.
  pub IsBehind-bump :
      (id a k : ℕ) (body : Body) (s : Store) (row : Upload)
      → s.uploads a ≡ some row
      → k < row.total_chunks
      → object_exists (chunk_storage_key uuid a k) s ≡ false
      → IsBehind id s
      → IsBehind id (
          set_upload a
            (some (record row { chunks_received = row.chunks_received + 1 }))
            (put_object (chunk_storage_key uuid a k) body s))
  IsBehind-bump id a k body s row here hk new b =
      let after = IsBehind-put id (chunk_storage_key uuid a k) body s b in
      elim (Bool-cases (a == id)) [
        | inl e ↦
            let same : a ≡ id = (==_iff a id).0 e in
            let row_is : row ≡ b.row = cc (here, same, b.here) in
            let small : row.total_chunks < 2147483648 = rw row_is b.small in
            let short : row.chunks_received < stored_chunks uuid s a row.total_chunks =
              rw (same, row_is) b.behind in
            record {
              row = record row { chunks_received = row.chunks_received + 1 };
              here = rw e refl;
              small = small;
              behind = rw (← same) (
                  omega (
                    arith,
                    short,
                    stored_chunks-put_new uuid s a k row.total_chunks body hk (omega arith) new,
                  ));
            }
        | inr e ↦ record {
          row = after.row;
          here = rw e after.here;
          small = after.small;
          behind = after.behind;
        }
      ]

  pub IsBehind-commit_chunk :
      (io : ℕ → Bool) (id a k : ℕ) (body : Body) (s : Store) (row : Upload)
      → s.uploads a ≡ some row
      → k < row.total_chunks
      → IsBehind id s
      → IsBehind id
          (commit_chunk uuid io a body
            (chunk_storage_key uuid a k, object_exists (chunk_storage_key uuid a k) s)
            s).1
  unfolding commit_chunk
  IsBehind-commit_chunk io id a k body s row here hk b =
      let P : Result AppError (Unit {0}) × Store → Type 0 = λ r. IsBehind id r.1 in
      let key = chunk_storage_key uuid a k in
      let after = IsBehind-put id key body s b in
      let part = taken_part io 5 body in
      put_chunk_rule P (io 2) (io 4) part key body _ s (λ _ _. IsBehind-put id key part s b)
        (λ _ _. b)
        (λ _.
          if_rule P (object_exists key s) _ _ (put_object key body s) (λ _. after)
            (λ new.
              await_rule P (io 3) _ (put_object key body s) (λ _. after)
                (λ _. rw here (
                  if_rule P (ltb (row.chunks_received + 1) 2147483648) _ _ (put_object key body s)
                    (λ _. IsBehind-bump id a k body s row here hk new b) (λ _. after)))))

  pub IsBehind-upload_chunk :
      (io : ℕ → Bool) (id user a : ℕ) (header : Option Text) (body : Body) (s : Store)
      → IsBehind id s
      → IsBehind id (upload_chunk uuid io user a header body s).1
  unfolding upload_chunk
  IsBehind-upload_chunk io id user a header body s b =
      probe_chunk-cases uuid (λ r. IsBehind id (continue r.0 r.1 (commit_chunk uuid io a body)).1)
        io user a header body s (λ e. b)
        (λ k row parsed found hk fits.
          IsBehind-commit_chunk io id a k body s row (owned_row user (s.uploads a) row found) hk b)

  pub IsBehind-set_other :
      (id a : ℕ) (row : Option Upload) (s : Store)
      → a ≢ id
      → IsBehind id s
      → IsBehind id (set_upload a row s)
  IsBehind-set_other id a row s ne b = record {
    row = b.row;
    here = rw (ne→== a id ne) b.here;
    small = b.small;
    behind = b.behind;
  }

  pub IsBehind-upload_init :
      (io : ℕ → Bool) (id user a : ℕ) (req : UploadInitRequest) (s : Store)
      → IsBehind id s
      → IsBehind id (upload_init io user a req s).1
  IsBehind-upload_init io id user a req s b =
      let P : Result AppError (ℕ × ℕ) × Store → Type 0 = λ r. IsBehind id r.1 in
      let taken_at : a ≡ id → s.uploads a ≡ s.uploads id = λ e. ap s.uploads e in
      rw (upload_init_lem io user a req s) (
        if_either P (accepted (io 0) a req s) _ _
          (λ h.
            IsBehind-set_other id a (some (staged user req)) s
              (λ same. ground (arith, b.here, taken_at same)) b)
          (λ h. b))

  -- Phase 3 refuses an upload that is behind, whoever asks and whatever calls fail.
  pub behind_refused :
      (io : ℕ → Bool) (now user id : ℕ) (s : Store)
      → IsBehind id s
      → (e : AppError) × (upload_complete io now user id s ≡ (err e, s))
  unfolding upload_complete
  behind_refused io now user id s b =
      let P : Result AppError ℕ × Store → Type 0 = λ r. (e : AppError) × (r ≡ (err e, s)) in
      await_rule P (io 0) _ s (λ _. (internal, refl))
        (λ _.
          require_rule P (find_upload id user s) not_found _ s (λ _. (not_found, refl))
            (λ u found.
              let row_is : u ≡ b.row = cc (owned_row user (s.uploads id) u found, b.here) in
              let most =
                count_below-le (λ i. object_exists (chunk_storage_key uuid id i) s)
                  b.row.total_chunks in
              let missing : u.chunks_received < u.total_chunks =
                rw row_is (omega (arith, b.behind, most)) in
              reject_rule P (ltb u.chunks_received u.total_chunks) bad_request _ s
                (λ _. (bad_request, refl)) (λ full. absurd (ground arith))))

  pub IsBehind-with_file :
      (id : ℕ) (f : FileRow) (s : Store) → IsBehind id s → IsBehind id (with_file f s)
  IsBehind-with_file id f s b = record {
    row = b.row;
    here = b.here;
    small = b.small;
    behind = b.behind;
  }

  -- Completing some upload: this one is refused, and another leaves it alone.
  pub IsBehind-upload_complete :
      (io : ℕ → Bool) (now user id a : ℕ) (s : Store)
      → IsBehind id s
      → IsBehind id (upload_complete io now user a s).1
  unfolding upload_complete
  IsBehind-upload_complete io now user id a s b = elim (Bool-cases (a == id)) [
    | inl e ↦
        let (_, refused) = behind_refused io now user id s b in rw ((==_iff a id).0 e, refused) b
    | inr e ↦
        let P : Result AppError ℕ × Store → Type 0 = λ r. IsBehind id r.1 in
        let ne : a ≢ id = λ same. false≢true (sym e ∙ (==_iff a id).1 same) in
        await_rule P (io 0) _ s (λ _. b)
          (λ _.
            require_rule P (find_upload a user s) not_found _ s (λ _. b)
              (λ u found.
                reject_rule P (ltb u.chunks_received u.total_chunks) _ _ s (λ _. b)
                  (λ full.
                    await_rule P (io 1) _ s (λ _. b)
                      (λ _.
                        reject_rule P (has_file a s.files) _ _ s (λ _. b)
                          (λ _.
                            let row = promoted now user a u in
                            let kept = IsBehind-with_file id row s b in
                            remove_cases P (io 2) a (with_file row s)
                              (IsBehind-set_other id a none (with_file row s) ne kept) kept)))))
  ]

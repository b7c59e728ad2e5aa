-- ===== src/Server/Files/Upload/Faults.antt =====
-- `upload_chunk` of apps/server/src/api/files.rs when a call fails or another request runs in between: the
-- object and the counter are written by two calls, with no transaction around them.
use free_box.Prelude.{
  ◌⊎◌, ℕ, ◌+◌, ◌≤◌, ◌<◌, ◌≡◌, ◌∙◌, ap, ltb, refl, if◌then◌else◌, Bool-cases, inl, inr, Bool, true,
  false, Option, some, arith, List, [], ◌∷◌, length,
}
use free_box.Outcome.{ok, err}
use free_box.Server.Error.{AppError, internal, bad_request}
use free_box.Server.Files.Keys.{
  Text, UuidText, chunk_storage_key, parse_chunk_index, max_upload_chunk_body_bytes,
  validate_chunk_body_size,
}
use free_box.Server.Files.State.{
  Body, Store, Upload, has_file, set_upload, put_object, object_exists, find_upload,
}
use free_box.Server.Files.Upload.{
  taken_part, UploadInitRequest, upload_init, upload_chunk, commit_chunk, upload_complete, is_empty,
}
use free_box.Server.Files.Upload.Counting.{
  stored_chunks, stored_chunks-put_new, stored_chunks-put_old, object_exists-put_self,
}
use free_box.Server.Files.Upload.Chunk.{IsCounted, owned_row}
use free_box.Server.Files.Upload.Behind.{
  IsBehind, behind_refused, IsBehind-upload_chunk, IsBehind-upload_init, IsBehind-upload_complete,
}

module _ (uuid : UuidText) where
  -- A request to the upload API, with the outcomes of the calls that it awaits.
  pub data Request : Type 0 where
    inits : (io : ℕ → Bool) (user upload_id : ℕ) → UploadInitRequest → Request
    sends : (io : ℕ → Bool) (user upload_id : ℕ) → Option Text → Body → Request
    completes : (io : ℕ → Bool) (now user upload_id : ℕ) → Request

  unfoldable pub serve : Request → Store → Store
  serve (inits io user id req) s = (upload_init io user id req s).1
  serve (sends io user id header body) s = (upload_chunk uuid io user id header body s).1
  serve (completes io now user id) s = (upload_complete io now user id s).1

  unfoldable pub serve_all : List Request → Store → Store
  unfolding serve
  serve_all [] s = s
  serve_all (r ∷ rs) s = serve_all rs (serve r s)

  IsBehind-serve_all :
      (id : ℕ) (rs : List Request) (s : Store)
      → IsBehind uuid id s
      → IsBehind uuid id (serve_all rs s)
  unfolding serve_all
  IsBehind-serve_all id [] s b = b
  IsBehind-serve_all id (inits io user a req ∷ rs) s b =
      IsBehind-serve_all id rs _ (IsBehind-upload_init uuid io id user a req s b)
  IsBehind-serve_all id (sends io user a header body ∷ rs) s b =
      IsBehind-serve_all id rs _ (IsBehind-upload_chunk uuid io id user a header body s b)
  IsBehind-serve_all id (completes io now user a ∷ rs) s b =
      IsBehind-serve_all id rs _ (IsBehind-upload_complete uuid io now user id a s b)

  abbrev pub IsFailing : (ℕ → Bool) → Type 0
  IsFailing io =
      (io 0 ≡ true)
      × (io 1 ≡ true)
      × (((io 2 ≡ true) × (io 3 ≡ false)) ⊎ ((io 2 ≡ false) × (io 4 ≡ true)))

  lost_update_lem :
      (io : ℕ → Bool) (user id k : ℕ) (header : Option Text) (body : Body) (s : Store)
      (row : Upload)
      → parse_chunk_index header ≡ ok k
      → find_upload id user s ≡ some row
      → k < row.total_chunks
      → is_empty body ≡ false
      → length body ≤ max_upload_chunk_body_bytes
      → object_exists (chunk_storage_key uuid id k) s ≡ false
      → IsFailing io
      → (part : Body) × (upload_chunk uuid io user id header body s
          ≡ (err internal, put_object (chunk_storage_key uuid id k) part s))
  unfolding upload_chunk validate_chunk_body_size
  lost_update_lem io user id k header body s row parsed found hk full fits new (c0, c1, inl c) =
      (body, ground arith)
  lost_update_lem io user id k header body s row parsed found hk full fits new (c0, c1, inr c) =
      (taken_part io 5 body, ground arith)

  -- Take a state in which every counter is the number of its stored chunks, and a new chunk of the user's own
  -- upload, in range and with a body that fits. If the UPDATE that counts it fails after its object was
  -- written, or the `put` fails and leaves a part of the object, then the upload is not completed after
  -- any requests to the upload API that are served one after the other, the same chunk sent again among
  -- them.
  pub lost_update-never_completes :
      (io : ℕ → Bool) (user id k : ℕ) (header : Option Text) (body : Body) (s : Store)
      (row : Upload)
      → IsCounted uuid s
      → parse_chunk_index header ≡ ok k
      → find_upload id user s ≡ some row
      → k < row.total_chunks
      → is_empty body ≡ false
      → length body ≤ max_upload_chunk_body_bytes
      → object_exists (chunk_storage_key uuid id k) s ≡ false
      → IsFailing io
      → (later : List Request) (io' : ℕ → Bool) (now asker : ℕ)
      → (e : AppError) × ((upload_complete io' now asker id
            (serve_all later (upload_chunk uuid io user id header body s).1)).0
          ≡ err e)
  lost_update-never_completes io user id k header body s row c parsed found hk full fits new calls
        later io' now asker =
      let here = owned_row user (s.uploads id) row found in
      let small = c.small id row here in
      let (part, sent) =
        lost_update_lem io user id k header body s row parsed found hk full fits new calls in
      let after = put_object (chunk_storage_key uuid id k) part s in
      let behind : IsBehind uuid id after = record {
        row = row;
        here = here;
        small = small;
        behind = omega (
          arith,
          c.counted id row here,
          stored_chunks-put_new uuid s id k row.total_chunks part hk (omega arith) new,
        );
      } in
      let (e, refused) =
        behind_refused uuid io' now asker id (serve_all later after)
          (IsBehind-serve_all id later after behind) in
      (e, rw sent (ap (λ r. r.0) refused))

  abbrev counted : Upload → Upload
  counted row = record row { chunks_received = row.chunks_received + 1 }

  abbrev counted_put : ℕ → Text → Body → Upload → Store → Store
  counted_put id key body row s = set_upload id (some (counted row)) (put_object key body s)

  counted_put-here :
      (id : ℕ) (key : Text) (body : Body) (row : Upload) (s : Store)
      → (counted_put id key body row s).uploads id ≡ some (counted row)
  counted_put-here id key body row s = ground arith

  commit_new :
      (id : ℕ) (key : Text) (body : Body) (row : Upload) (s : Store)
      → s.uploads id ≡ some row
      → row.chunks_received + 1 < 2147483648
      → commit_chunk uuid (λ _. true) id body (key, false) s
        ≡ (ok tt, counted_put id key body row s)
  unfolding commit_chunk
  commit_new id key body row s here room = ground arith

  -- Take a state in which every counter is the number of its stored chunks, a new chunk in range of the
  -- user's own upload, whose counter has room for two more in an `i32`, and no file with the upload's id.
  -- Two requests for that chunk, both past their `exists` call before either writes, raise the counter by
  -- two and the number of stored chunks by one. If every call works, the upload then completes exactly
  -- where the counter has come to the number of chunks; if two chunks were missing, it completes with one
  -- of them missing.
  pub racing_sends_overcount :
      (id user k now : ℕ) (one two : Body) (s : Store) (row : Upload)
      → IsCounted uuid s
      → find_upload id user s ≡ some row
      → k < row.total_chunks
      → row.chunks_received + 2 < 2147483648
      → has_file id s.files ≡ false
      → object_exists (chunk_storage_key uuid id k) s ≡ false
      → let key = chunk_storage_key uuid id k in
        let seen = object_exists key s in
        let after =
          (commit_chunk uuid
            (λ _. true)
            id
            two
            (key, seen)
            (commit_chunk uuid (λ _. true) id one (key, seen) s).1).1 in
        (after.uploads id ≡ some (record row { chunks_received = row.chunks_received + 2 }))
        × (stored_chunks uuid after id row.total_chunks ≡ row.chunks_received + 1)
        × ((upload_complete (λ _. true) now user id after).0
            ≡ (if ltb (row.chunks_received + 2) row.total_chunks then err bad_request else ok id))
  unfolding upload_complete
  racing_sends_overcount id user k now one two s row c found hk room free new =
      let key = chunk_storage_key uuid id k in
      let here = owned_row user (s.uploads id) row found in
      let small = c.small id row here in
      let first = counted_put id key one row s in
      let row_1 = counted row in
      let second = counted_put id key two row_1 first in
      let again : first.uploads id ≡ some row_1 = counted_put-here id key one row s in
      let once = stored_chunks-put_new uuid s id k row.total_chunks one hk (omega arith) new in
      let twice =
        stored_chunks-put_old uuid first id id k row.total_chunks two (omega arith) (omega arith)
          (object_exists-put_self uuid id k one s) in
      let more : row.chunks_received + 1 + 1 ≡ row.chunks_received + 2 = omega arith in
      let kept : find_upload id user second ≡ some (counted row_1) =
        ground (arith, found, counted_put-here id key two row_1 first) in
      rw
        (
          new,
          commit_new id key one row s here (omega arith),
          commit_new id key two row_1 first again (omega arith),
        )
        (
          counted_put-here id key two row_1 first
              ∙ ap (λ n. some (record row { chunks_received = n })) more,
          omega (arith, once, twice, c.counted id row here),
          elim (Bool-cases (ltb (row.chunks_received + 2) row.total_chunks)) [
            | inl e ↦ rw (kept, more, e) refl
            | inr e ↦ rw (kept, more, e, free) refl
          ],
        )

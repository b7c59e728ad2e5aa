-- ===== src/Server/Files/Upload/Chunk.antt =====
-- `upload_chunk` of apps/server/src/api/files.rs keeps the counter of every upload equal to the number of
-- its chunks that are stored.
use free_box.Prelude.{
  ℕ, ◌+◌, ◌≤◌, ◌<◌, ◌≡◌, inl, inr, sym, ◌∙◌, Bool, true, false, Option, none, some, List, [], ◌∷◌,
  All, arith, refl, false≢true, length, leb, ltb, lt→ltb,
}
use free_box.Outcome.{Result, ok, err}
use free_box.Server.Error.{AppError, internal, not_found}
use free_box.Server.Handler.{
  Handler, ◌>>◌, continue, lift_rule, require_rule, await_rule, reject_rule, if_rule,
}
use free_box.Server.Files.Keys.{
  Text, UuidText, u32_limit, chunk_storage_key, parse_chunk_index, validate_chunk_body_size,
  max_upload_chunk_body_bytes,
}
use free_box.Server.Files.State.{
  Body, Store, Upload, FileRow, set_upload, set_upload-cases, put_object, object_exists,
  find_upload, owned,
}
use free_box.Server.Files.Upload.{
  put_chunk, taken_part, upload_chunk, commit_chunk, probe_chunk, bump, is_empty,
}
use free_box.Server.Files.Upload.Counting.{
  count_below-le, stored_chunks, stored_chunks-put_new, stored_chunks-put_other,
  stored_chunks-put_old, object_exists-put,
}

pub owned_row : (user : ℕ) (o : Option Upload) (u : Upload) → owned user o ≡ some u → o ≡ some u
owned_row user none u h = cc h
owned_row user (some v) u h = ground arith

-- What follows a `put`.
pub put_chunk_rule {ℓ} :
    (P : Result AppError (Unit {0}) × Store → Type ℓ) (works leaves : Bool) (part : Body)
    (key : Text) (body : Body) (m : Handler Store (Unit {0})) (s : Store)
    → (works ≡ false → leaves ≡ true → P (err internal, put_object key part s))
    → (works ≡ false → leaves ≡ false → P (err internal, s))
    → (works ≡ true → P (m (put_object key body s)))
    → P ((put_chunk works leaves part key body >> m) s)
put_chunk_rule P true leaves part key body m s left clean good = good refl
put_chunk_rule P false true part key body m s left clean good = left refl refl
put_chunk_rule P false false part key body m s left clean good = clean refl refl

module _ (uuid : UuidText) where
  -- Every chunk of a file is stored.
  abbrev pub IsStored : Store → FileRow → Type 0
  IsStored s f =
      (f.total_chunks < 2147483648)
      × ((i : ℕ) → i < f.total_chunks → object_exists (chunk_storage_key uuid f.id i) s ≡ true)

  -- A counter is the number of chunks stored, a count of chunks is an `i32`, and the files are whole.
  pub record IsCounted (s : Store) : Type 0 where
    pub counted :
        (id : ℕ) (u : Upload)
        → s.uploads id ≡ some u
        → u.chunks_received ≡ stored_chunks uuid s id u.total_chunks
    pub small : (id : ℕ) (u : Upload) → s.uploads id ≡ some u → u.total_chunks < 2147483648
    pub stored : All (IsStored s) s.files

  pub All-IsStored-put :
      (s : Store) (key : Text) (body : Body) (fs : List FileRow)
      → All (IsStored s) fs
      → All (IsStored (put_object key body s)) fs
  All-IsStored-put s key body [] h = tt
  All-IsStored-put s key body (f ∷ fs) h = (
    (h.0.0, λ i l. object_exists-put s key _ body (h.0.1 i l)),
    All-IsStored-put s key body fs h.1,
  )

  -- A chunk that is sent again.
  IsCounted-put_old :
      (s : Store) (a k : ℕ) (body : Body)
      → IsCounted s
      → k < u32_limit
      → object_exists (chunk_storage_key uuid a k) s ≡ true
      → IsCounted (put_object (chunk_storage_key uuid a k) body s)
  IsCounted-put_old s a k body c hk old = record {
    counted = λ id u e.
        c.counted id u e
        ∙ sym (
            stored_chunks-put_old uuid s a id k u.total_chunks body hk
              (omega (arith, c.small id u e)) old);
    small = c.small;
    stored = All-IsStored-put s _ body s.files c.stored;
  }

  -- A new chunk, counted.
  IsCounted-put_new :
      (s : Store) (a k : ℕ) (body : Body) (row : Upload)
      → IsCounted s
      → s.uploads a ≡ some row
      → k < row.total_chunks
      → object_exists (chunk_storage_key uuid a k) s ≡ false
      → IsCounted (
          set_upload a
            (some (record row { chunks_received = row.chunks_received + 1 }))
            (put_object (chunk_storage_key uuid a k) body s))
  IsCounted-put_new s a k body row c here hk new =
      let fits = c.small a row here in
      let after = put_object (chunk_storage_key uuid a k) body s in
      let more = record row { chunks_received = row.chunks_received + 1 } in
      record {
        counted = λ id u e. elim (set_upload-cases a id (some more) after u e) [
          | inl (p, q) ↦
              let row_is : more ≡ u = cc q in
              rw (← p, ← row_is)
                (omega (
                  arith,
                  c.counted a row here,
                  stored_chunks-put_new uuid s a k row.total_chunks body hk (omega arith) new,
                ))
          | inr (ne, q) ↦
              c.counted id u q
              ∙ sym (
                  stored_chunks-put_other uuid s a id k u.total_chunks body ne (omega arith)
                    (omega (arith, c.small id u q)))
        ];
        small = λ id u e. elim (set_upload-cases a id (some more) after u e) [
          | inl (p, q) ↦ let row_is : more ≡ u = cc q in rw (← row_is) fits
          | inr (ne, q) ↦ c.small id u q
        ];
        stored = All-IsStored-put s _ body s.files c.stored;
      }

  -- `bump` in a counted state never overflows.
  IsCounted-bump :
      (s : Store) (a k : ℕ) (body : Body) (row : Upload)
      → IsCounted s
      → s.uploads a ≡ some row
      → k < row.total_chunks
      → object_exists (chunk_storage_key uuid a k) s ≡ false
      → IsCounted (bump a (some row) (put_object (chunk_storage_key uuid a k) body s)).1
  IsCounted-bump s a k body row c here hk new =
      let fits = c.small a row here in
      let room : row.chunks_received + 1 < 2147483648 = omega (
        arith,
        c.counted a row here,
        count_below-le
            (λ i.
              object_exists (chunk_storage_key uuid a i)
                (put_object (chunk_storage_key uuid a k) body s))
            row.total_chunks,
        stored_chunks-put_new uuid s a k row.total_chunks body hk (omega arith) new,
      ) in
      rw (lt→ltb _ _ room) (IsCounted-put_new s a k body row c here hk new)

  IsCounted-commit_chunk :
      (io : ℕ → Bool) (s : Store) (a k : ℕ) (body : Body) (row : Upload)
      → (io 2 ≡ false → io 4 ≡ false)
      → io 3 ≡ true
      → IsCounted s
      → s.uploads a ≡ some row
      → k < row.total_chunks
      → IsCounted
          (commit_chunk uuid io a body
            (chunk_storage_key uuid a k, object_exists (chunk_storage_key uuid a k) s)
            s).1
  unfolding commit_chunk
  IsCounted-commit_chunk io s a k body row clean calm c here hk =
      let P : Result AppError (Unit {0}) × Store → Type 0 = λ r. IsCounted r.1 in
      let fits = c.small a row here in
      let key = chunk_storage_key uuid a k in
      put_chunk_rule P (io 2) (io 4) (taken_part io 5 body) key body _ s
        (λ fails leaves. absurd (false≢true (sym (clean fails) ∙ leaves))) (λ f g. c)
        (λ t.
          if_rule P (object_exists key s) _ _ (put_object key body s)
            (λ old. IsCounted-put_old s a k body c (omega arith) old)
            (λ new.
              await_rule P (io 3) _ (put_object key body s) (λ f. cc (f, calm))
                (λ t. rw here (IsCounted-bump s a k body row c here hk new))))

  -- The checks of `upload_chunk` leave the store alone. They pass for a chunk in range of the user's
  -- own upload with a body that fits.
  pub probe_chunk-cases {ℓ} :
      (P : Result AppError (Text × Bool) × Store → Type ℓ) (io : ℕ → Bool) (user a : ℕ)
      (header : Option Text) (body : Body) (s : Store)
      → ((e : AppError) → P (err e, s))
      → ((k : ℕ) (row : Upload)
          → parse_chunk_index header ≡ ok k
          → find_upload a user s ≡ some row
          → k < row.total_chunks
          → length body ≤ max_upload_chunk_body_bytes
          → P (ok (chunk_storage_key uuid a k, object_exists (chunk_storage_key uuid a k) s), s))
      → P (probe_chunk uuid io user a header body s)
  unfolding probe_chunk validate_chunk_body_size
  probe_chunk-cases P io user a header body s bad good =
      lift_rule P (parse_chunk_index header) _ s (λ e _. bad e)
        (λ k parsed.
          await_rule P (io 0) _ s (λ _. bad _)
            (λ _.
              require_rule P (find_upload a user s) not_found _ s (λ _. bad _)
                (λ row found.
                  reject_rule P (leb row.total_chunks k) _ _ s (λ _. bad _)
                    (λ below.
                      reject_rule P (is_empty body) _ _ s (λ _. bad _)
                        (λ _.
                          reject_rule P (ltb max_upload_chunk_body_bytes (length body)) _ _ s
                            (λ _. bad _)
                            (λ fits.
                              await_rule P (io 1) _ s (λ _. bad _)
                                (λ _. good k row parsed found (ground arith) (ground arith))))))))

  -- Take a state in which every counter is the number of its stored chunks and the files are whole. Whatever
  -- the request and whichever calls fail, it stays so, if the UPDATE that counts a chunk works and a `put`
  -- that fails leaves no part of the object behind.
  pub upload_chunk-IsCounted :
      (io : ℕ → Bool) (user upload_id : ℕ) (header : Option Text) (body : Body) (s : Store)
      → (io 2 ≡ false → io 4 ≡ false)
      → io 3 ≡ true
      → IsCounted s
      → IsCounted (upload_chunk uuid io user upload_id header body s).1
  unfolding upload_chunk
  upload_chunk-IsCounted io user a header body s clean calm c =
      probe_chunk-cases (λ r. IsCounted (continue r.0 r.1 (commit_chunk uuid io a body)).1) io user
        a header body s (λ e. c)
        (λ k row parsed found hk fits.
          IsCounted-commit_chunk io s a k body row clean calm c
            (owned_row user (s.uploads a) row found) hk)

-- ===== src/Server/Files/Upload/Init.antt =====
-- Phase 1 of an upload, `upload_init` of apps/server/src/api/files.rs.
use free_box.Prelude.{
  ℕ, zero, suc, ◌<◌, ◌≡◌, inl, inr, refl, Bool, false, not, ◌&&◌, none, some, arith, if◌then◌else◌,
  if_either, ltb,
}
use free_box.Outcome.{Result, ok, err}
use free_box.Server.Error.{AppError, internal}
use free_box.Server.Files.Keys.{UuidText, chunk_storage_key}
use free_box.Server.Files.State.{
  Store, Upload, set_upload, set_upload-cases, object_exists, is_some,
}
use free_box.Server.Files.Upload.{UploadInitRequest, upload_init, upload_chunk_size}
use free_box.Server.Files.Upload.Counting.{count_below}
use free_box.Server.Files.Upload.Chunk.{IsCounted}

-- The row that phase 1 stages.
abbrev pub staged : ℕ → UploadInitRequest → Upload
staged user req = record {
  user_id = user;
  total_chunks = req.total_chunks;
  chunks_received = 0;
  size_bytes = req.size_bytes;
  encrypted_key_envelope = req.encrypted_key_envelope;
  content_hash = req.content_hash;
  encrypted_name = req.encrypted_name;
}

-- From 1 to 2^31 - 1 chunks, fewer than 2^63 bytes, an unused id, and a database that answers.
abbrev pub accepted : Bool → ℕ → UploadInitRequest → Store → Bool
accepted answers id req s =
    answers
    && ((ltb 0 req.total_chunks && ltb req.total_chunks 2147483648)
        && (ltb req.size_bytes 9223372036854775808 && not (is_some (s.uploads id))))

-- `upload_init` stages a row for exactly the requests that the casts and the CHECKs let through: from
-- 1 to 2^31 - 1 chunks, fewer than 2^63 bytes, an unused id, and a database that answers. It answers
-- any other request with an internal error and stages nothing.
pub upload_init_lem :
    (io : ℕ → Bool) (user id : ℕ) (req : UploadInitRequest) (s : Store)
    → upload_init io user id req s ≡ (
        if accepted (io 0) id req s
        then (ok (id, upload_chunk_size), set_upload id (some (staged user req)) s)
        else (err internal, s))
unfolding upload_init
upload_init_lem io user id req s = ground arith

module _ (uuid : UuidText) where
  -- An id that has no row and no chunk yet, as `Uuid::new_v4` returns it.
  pub record IsFresh (id : ℕ) (s : Store) : Type 0 where
    pub unused : s.uploads id ≡ none
    pub unstored : (i : ℕ) → object_exists (chunk_storage_key uuid id i) s ≡ false

  count_below-none : (p : ℕ → Bool) (n : ℕ) → ((i : ℕ) → p i ≡ false) → 0 ≡ count_below p n
  unfolding count_below
  count_below-none p zero h = refl
  count_below-none p (suc n) h = ground (arith, count_below-none p n h, h n)

  IsCounted-staged :
      (user id : ℕ) (req : UploadInitRequest) (s : Store)
      → IsFresh id s
      → req.total_chunks < 2147483648
      → IsCounted uuid s
      → IsCounted uuid (set_upload id (some (staged user req)) s)
  IsCounted-staged user id req s fresh small c = record {
    counted = λ j u e. elim (set_upload-cases id j (some (staged user req)) s u e) [
      | inl (p, q) ↦
          let row_is : staged user req ≡ u = cc q in
          rw (← p, ← row_is) (count_below-none _ req.total_chunks fresh.unstored)
      | inr (ne, q) ↦ c.counted j u q
    ];
    small = λ j u e. elim (set_upload-cases id j (some (staged user req)) s u e) [
      | inl (p, q) ↦ let row_is : staged user req ≡ u = cc q in rw (← row_is) small
      | inr (ne, q) ↦ c.small j u q
    ];
    stored = c.stored;
  }

  -- Phase 1 keeps the counters right, at a fresh id.
  pub upload_init-IsCounted :
      (io : ℕ → Bool) (user id : ℕ) (req : UploadInitRequest) (s : Store)
      → IsFresh id s
      → IsCounted uuid s
      → IsCounted uuid (upload_init io user id req s).1
  upload_init-IsCounted io user id req s fresh c =
      let P : Result AppError (ℕ × ℕ) × Store → Type 0 = λ r. IsCounted uuid r.1 in
      rw (upload_init_lem io user id req s) (
        if_either P (accepted (io 0) id req s) _ _
          (λ h. IsCounted-staged user id req s fresh (ground arith) c) (λ h. c))

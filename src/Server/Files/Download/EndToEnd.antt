-- ===== src/Server/Files/Download/EndToEnd.antt =====
-- A whole upload through the handlers of apps/server/src/api/files.rs, and the download of its chunks.
use free_box.Prelude.{
  ℕ, zero, suc, ◌+◌, ◌≤◌, ◌<◌, ◌≡◌, inl, inr, refl, ap, sym, subst, ◌∙◌, Bool, true, false, Option,
  none, some, List, [], ◌∷◌, ◌++◌, length, ◌==◌, ==_iff, Bool-cases, arith, bytes_eq_refl,
}
use free_box.Outcome.{ok}
use free_box.Server.Files.Keys.{
  Text, UuidText, u32_limit, chunk_storage_key, parse_chunk_index, validate_chunk_body_size,
  max_upload_chunk_body_bytes,
}
use free_box.Server.Files.State.{
  Body, Store, Upload, FileRow, set_upload, put_object, object_exists, find_file, active_of,
  has_file, is_some,
}
use free_box.Server.Files.Upload.{
  UploadInitRequest, upload_init, upload_chunk, upload_complete, upload_chunk_size, promoted,
  with_file, is_empty,
}
use free_box.Server.Files.Upload.Counting.{objects-put_ne}
use free_box.Server.Files.Upload.Init.{IsFresh, staged, upload_init_lem}
use free_box.Server.Files.Upload.Complete.{upload_complete_lem}
use free_box.Server.Files.Download.{download_chunk, get_file_meta, meta_of}

abbrev pub calm : ℕ → Bool
calm k = true

-- The row of a promoted file is found at the end of the table.
find_file-concat :
    (id user now : ℕ) (u : Upload) (fs : List FileRow)
    → has_file id fs ≡ false
    → find_file (active_of id user) (fs ++ promoted now user id u ∷ [])
      ≡ some (promoted now user id u)
find_file-concat id user now u [] h = ground arith
find_file-concat id user now u (f ∷ fs) h = ground (arith, find_file-concat id user now u fs)

module _ (uuid : UuidText) (user id : ℕ) (header : ℕ → Option Text) (body : ℕ → Body) where
  -- The client sends the chunks `0 … n - 1` in order.
  unfoldable pub send_upto : ℕ → Store → Store
  send_upto zero s = s
  send_upto (suc n) s = (upload_chunk uuid calm user id (header n) (body n) (send_upto n s)).1

  abbrev received : ℕ → UploadInitRequest → Upload
  received k req = record (staged user req) { chunks_received = k }

  -- `k` chunks have been sent.
  pub record IsSending (req : UploadInitRequest) (files : List FileRow) (k : ℕ) (s : Store)
      : Type 0 where
    pub row : s.uploads id ≡ some (received k req)
    pub same_files : s.files ≡ files
    pub sent : (i : ℕ) → i < k → s.objects (chunk_storage_key uuid id i) ≡ some (body i)
    pub unsent :
        (i : ℕ) → k ≤ i → i < u32_limit → object_exists (chunk_storage_key uuid id i) s ≡ false

  module _ (req : UploadInitRequest) (files : List FileRow)
      (fits : (k : ℕ)
        → (is_empty (body k) ≡ false) × (length (body k) ≤ max_upload_chunk_body_bytes))
      (small : req.total_chunks < 2147483648) where
    -- One more chunk: the handler answers without an error.
    send_lem :
        (k : ℕ) (s : Store)
        → k < req.total_chunks
        → parse_chunk_index (header k) ≡ ok k
        → IsSending req files k s
        → upload_chunk uuid calm user id (header k) (body k) s ≡ (
          ok tt,
          set_upload id
              (some (received (k + 1) req))
              (put_object (chunk_storage_key uuid id k) (body k) s),
        )
    unfolding upload_chunk validate_chunk_body_size
    send_lem k s hk parsed sending = ground (arith, fits k, sending.row, sending.unsent k)

    IsSending-send :
        (k : ℕ) (s : Store)
        → k < req.total_chunks
        → IsSending req files k s
        → IsSending req files (k + 1) (
            set_upload id
              (some (received (k + 1) req))
              (put_object (chunk_storage_key uuid id k) (body k) s))
    IsSending-send k s hk sending = record {
      row = ground arith;
      same_files = sending.same_files;
      sent = λ i h. elim (Bool-cases (i == k)) [
        | inl e ↦ rw ((==_iff i k).0 e, bytes_eq_refl (chunk_storage_key uuid id k)) refl
        | inr e ↦
            objects-put_ne uuid id id k i (body k) s (omega arith) (ground arith)
              (λ p. ground arith)
            ∙ sending.sent i (ground arith)
      ];
      unsent = λ i h l.
          ap is_some
            (objects-put_ne uuid id id k i (body k) s (omega arith) l (λ p. omega (arith, p.1)))
          ∙ sending.unsent i (omega arith) l;
    }

    IsSending-send_upto :
        (n : ℕ) (s : Store)
        → n ≤ req.total_chunks
        → ((k : ℕ) → k < req.total_chunks → parse_chunk_index (header k) ≡ ok k)
        → IsSending req files 0 s
        → IsSending req files n (send_upto n s)
    unfolding send_upto
    IsSending-send_upto zero s h parsed start = start
    IsSending-send_upto (suc n) s h parsed start =
        let before = IsSending-send_upto n s (omega arith) parsed start in
        let t = send_upto n s in
        let add : n + 1 ≡ suc n = omega arith in
        let after =
          set_upload id (some (received (n + 1) req))
            (put_object (chunk_storage_key uuid id n) (body n) t) in
        let answer = send_lem n t (omega arith) (parsed n (omega arith)) before in
        subst (λ t'. IsSending req files (suc n) t') (ap (λ r. r.1) (sym answer))
          (subst (λ m. IsSending req files m after) add (IsSending-send n t (omega arith) before))

    begun_lem :
        (s : Store)
        → 0 < req.total_chunks
        → req.size_bytes < 9223372036854775808
        → s.uploads id ≡ none
        → upload_init calm user id req s
          ≡ (ok (id, upload_chunk_size), set_upload id (some (staged user req)) s)
    begun_lem s pos size unused = upload_init_lem calm user id req s ∙ ground (arith, unused, small)

    IsSending-begun :
        (s : Store)
        → IsFresh uuid id s
        → s.files ≡ files
        → IsSending req files 0 (set_upload id (some (staged user req)) s)
    IsSending-begun s fresh same = record {
      row = ground arith;
      same_files = same;
      sent = λ i h. absurd (omega arith);
      unsent = λ i h l. fresh.unstored i;
    }

    done_lem :
        (now : ℕ) (s : Store)
        → has_file id files ≡ false
        → IsSending req files req.total_chunks s
        → upload_complete calm now user id s ≡ (
          ok id,
          set_upload id none (with_file (promoted now user id (received req.total_chunks req)) s),
        )
    done_lem now s free sending =
        (upload_complete_lem now user id s).2 (received req.total_chunks req)
          (ground (arith, sending.row)) (omega arith) (rw sending.same_files free)

    downloaded_lem :
        (now : ℕ) (s : Store) (k : ℕ)
        → k < req.total_chunks
        → has_file id files ≡ false
        → IsSending req files req.total_chunks s
        → let after =
            set_upload id none
              (with_file (promoted now user id (received req.total_chunks req)) s) in
          download_chunk uuid calm user id k after ≡ (ok (body k), after)
    unfolding download_chunk
    downloaded_lem now s k hk free sending =
        let row = received req.total_chunks req in
        let at_end = find_file-concat id user now row s.files (rw sending.same_files free) in
        ground (arith, at_end, sending.sent k hk)

    -- Take an accepted request at a fresh id, a header for each index that reads back as the index, and
    -- nonempty bodies within the limit. Then the upload goes through: phase 1 stages the row, every
    -- chunk sent in order is taken, phase 3 answers with the file's id, and afterwards the owner's
    -- download of each chunk returns the body that was sent.
    pub upload_protocol :
        (now : ℕ) (s : Store)
        → 0 < req.total_chunks
        → req.size_bytes < 9223372036854775808
        → IsFresh uuid id s
        → has_file id files ≡ false
        → s.files ≡ files
        → ((k : ℕ) → k < req.total_chunks → parse_chunk_index (header k) ≡ ok k)
        → (k : ℕ) → k < req.total_chunks
        → let begun = upload_init calm user id req s in
          let sent = send_upto req.total_chunks begun.1 in
          let done = upload_complete calm now user id sent in
          (begun.0 ≡ ok (id, upload_chunk_size))
          × ((upload_chunk uuid calm user id (header k) (body k) (send_upto k begun.1)).0 ≡ ok tt)
          × (done.0 ≡ ok id)
          × (download_chunk uuid calm user id k done.1 ≡ (ok (body k), done.1))
    upload_protocol now s pos size fresh free same parsed k hk =
        let start = set_upload id (some (staged user req)) s in
        let begun = IsSending-begun s fresh same in
        let so_far = IsSending-send_upto k start (omega arith) parsed begun in
        let all_sent = IsSending-send_upto req.total_chunks start (omega arith) parsed begun in
        let last = send_upto req.total_chunks start in
        rw (begun_lem s pos size fresh.unused) (
          refl,
          ap (λ r. r.0) (send_lem k (send_upto k start) hk (parsed k hk) so_far),
          ap (λ r. r.0) (done_lem now last free all_sent),
          rw (done_lem now last free all_sent) (downloaded_lem now last k hk free all_sent),
        )

    -- Under the same conditions, the owner finds the file's metadata after phase 3.
    pub get_file_meta-upload :
        (now : ℕ) (s : Store)
        → 0 < req.total_chunks
        → req.size_bytes < 9223372036854775808
        → IsFresh uuid id s
        → has_file id files ≡ false
        → s.files ≡ files
        → ((k : ℕ) → k < req.total_chunks → parse_chunk_index (header k) ≡ ok k)
        → let done =
            upload_complete calm now user id
              (send_upto req.total_chunks (upload_init calm user id req s).1) in
          get_file_meta calm user id done.1
          ≡ (ok (meta_of (promoted now user id (received req.total_chunks req))), done.1)
    unfolding get_file_meta
    get_file_meta-upload now s pos size fresh free same parsed =
        let start = set_upload id (some (staged user req)) s in
        let begun = IsSending-begun s fresh same in
        let all_sent = IsSending-send_upto req.total_chunks start (omega arith) parsed begun in
        let last = send_upto req.total_chunks start in
        let row = received req.total_chunks req in
        let at_end = find_file-concat id user now row last.files (rw all_sent.same_files free) in
        rw (begun_lem s pos size fresh.unused) (rw (done_lem now last free all_sent, at_end) refl)

-- ===== src/Storage/Local/Gather.antt =====
-- Uploading and gathering parts in plugins/storage-local/src/lib.rs, on a disk whose calls all answer.
use free_box.Prelude.{
  ℕ, ◌≡◌, refl, ◌∙◌, sym, ap, true, none, some, List, [], ◌∷◌, ◌++◌, bytes_eq_refl, map, append-nil,
  append_assoc, arith,
}
use free_box.Outcome.{Result, ok, err}
use free_box.Server.Error.{CoreError, object_not_found}
use free_box.Server.Files.Keys.{Text}
use free_box.Storage.{Bytes, continue, pure, MultipartUpload, CompletedPart}
use free_box.Storage.Local.{
  Operator, LocalPlugin, put, delete, upload_part, gather, sort_by_key, staging_key,
}
use free_box.Storage.Local.Objects.{
  Objects, insert, remove, IsHealthy, IsShown, put_lem, delete_lem, get_lem,
}
use free_box.Storage.Local.Staging.{
  Part, part_of, joined, Shuffle, numbered, increasing, staged, unstaged, staged-fresh,
  staged-Shuffle, sort_by_key-Shuffle, sort_by_key-increasing, increasing-numbered,
  numbered-Shuffle,
}

abbrev pub upload_all : {D : Type 0} → MultipartUpload → List Part → LocalPlugin D → LocalPlugin D
upload_all upload [] s = s
upload_all upload (q ∷ qs) s = upload_all upload qs (upload_part upload q.0 q.1 s).1

-- A disk without the staged parts.
abbrev pub cleared : {D : Type 0} → Text → List Part → LocalPlugin D → LocalPlugin D
cleared key [] s = s
cleared key (q ∷ qs) s = cleared key qs (delete (staging_key key q.0) s).1

abbrev pub prefixed : {S : Type 0} → Bytes → Result CoreError Bytes × S → Result CoreError Bytes × S
prefixed front (ok rest, s) = (ok (front ++ rest), s)
prefixed front (err e, s) = (err e, s)

pub prefixed_append :
    {S : Type 0} (xs ys : Bytes) (r : Result CoreError Bytes × S)
    → prefixed xs (prefixed ys r) ≡ prefixed (xs ++ ys) r
prefixed_append xs ys (ok zs, s) = rw (append_assoc xs ys zs) refl
prefixed_append xs ys (err e, s) = refl

prefixed_nil : {S : Type 0} (r : Result CoreError Bytes × S) → prefixed [] r ≡ r
prefixed_nil (ok zs, s) = refl
prefixed_nil (err e, s) = refl

bind_prefixed :
    {S : Type 0} (front : Bytes) (r : Result CoreError Bytes × S)
    → continue r.0 r.1 (λ rest. pure (front ++ rest)) ≡ prefixed front r
bind_prefixed front (ok rest, s) = refl
bind_prefixed front (err e, s) = refl

pub unstaged-none : (key : Text) (qs : List Part) (j : Text) → unstaged key qs j none ≡ none
unstaged-none key [] j = refl
unstaged-none key (q ∷ qs) j = ground (arith, unstaged-none key qs j)

module _ (D : Type 0) (operator : Operator D) (view : D → Objects)
    (healthy : IsHealthy D operator view) where
  abbrev pub Shown : LocalPlugin D → Objects → Type 0
  Shown s m = IsShown D operator view healthy s m

  pub Shown-put :
      (key : Text) (bytes : Bytes) (s : LocalPlugin D) (m : Objects)
      → Shown s m
      → Shown (put key bytes s).1 (insert key bytes m)
  Shown-put key bytes s m h = rw (put_lem D operator view healthy key bytes s h.loaded) record {
    loaded = h.loaded;
    shown = λ k. rw (healthy.view-write key bytes s.disk k, h.shown k) refl;
  }

  pub Shown-delete :
      (key : Text) (s : LocalPlugin D) (m : Objects)
      → Shown s m
      → Shown (delete key s).1 (remove key m)
  Shown-delete key s m h = rw (delete_lem D operator view healthy key s h.loaded) record {
    loaded = h.loaded;
    shown = λ k. rw (healthy.view-delete key s.disk k, h.shown k) refl;
  }

  pub Shown-same :
      (s : LocalPlugin D) (m n : Objects) → Shown s m → ((j : Text) → m j ≡ n j) → Shown s n
  Shown-same s m n h e = record { loaded = h.loaded; shown = λ j. h.shown j ∙ e j }

  insert-staged :
      (key : Text) (q : Part) (qs : List Part) (m : Objects) (j : Text)
      → numbered (q ∷ qs) ≡ true
      → staged key qs j (insert (staging_key key q.0) q.1 m j) ≡ staged key (q ∷ qs) j (m j)
  insert-staged key q qs m j h = ground (arith, staged-fresh key q.0 qs j (some q.1))

  remove-staged :
      (key : Text) (q : Part) (qs : List Part) (m : Objects) (j : Text)
      → numbered (q ∷ qs) ≡ true
      → remove (staging_key key q.0) (λ k. staged key (q ∷ qs) k (m k)) j
        ≡ staged key qs j (remove (staging_key key q.0) m j)
  remove-staged key q qs m j h = ground (arith, staged-fresh key q.0 qs j none)

  remove-unstaged :
      (key : Text) (q : Part) (qs : List Part) (m : Objects) (j : Text)
      → unstaged key qs j (remove (staging_key key q.0) m j) ≡ unstaged key (q ∷ qs) j (m j)
  remove-unstaged key q qs m j = ground (arith, unstaged-none key qs j)

  upload_part_lem :
      (upload : MultipartUpload) (n : ℕ) (bytes : Bytes) (s : LocalPlugin D)
      → s.operator ≡ some operator
      → (upload_part upload n bytes s).1 ≡ (put (staging_key upload.key n) bytes s).1
  unfolding upload_part
  upload_part_lem upload n bytes s h =
      rw (put_lem D operator view healthy (staging_key upload.key n) bytes s h) refl

  pub Shown-upload_all :
      (upload : MultipartUpload) (qs : List Part) (s : LocalPlugin D) (m : Objects)
      → Shown s m
      → numbered qs ≡ true
      → Shown (upload_all upload qs s) (λ j. staged upload.key qs j (m j))
  Shown-upload_all upload [] s m h k = h
  Shown-upload_all upload (q ∷ qs) s m h k =
      let key = staging_key upload.key q.0 in
      let after = (put key q.1 s).1 in
      let first = Shown-put key q.1 s m h in
      let rest = Shown-upload_all upload qs after (insert key q.1 m) first (ground (arith, k)) in
      rw (upload_part_lem upload q.0 q.1 s h.loaded) (
        Shown-same (upload_all upload qs after) (λ j. staged upload.key qs j (insert key q.1 m j))
          (λ j. staged upload.key (q ∷ qs) j (m j)) rest (λ j. insert-staged upload.key q qs m j k))

  pub gather_lem :
      (key : Text) (qs : List Part) (ps : List CompletedPart) (s : LocalPlugin D) (m : Objects)
      → Shown s (λ j. staged key qs j (m j))
      → numbered qs ≡ true
      → (gather key (map part_of qs ++ ps) s
          ≡ prefixed (joined qs) (gather key ps (cleared key qs s)))
        × Shown (cleared key qs s) (λ j. unstaged key qs j (m j))
  unfolding gather
  gather_lem key [] ps s m h k = (sym (prefixed_nil (gather key ps s)), h)
  gather_lem key (q ∷ qs) ps s m h k =
      let staging = staging_key key q.0 in
      let holds : view s.disk staging ≡ some q.1 =
        h.shown staging ∙ rw (bytes_eq_refl staging) refl in
      let after = (delete staging s).1 in
      let smaller =
        Shown-same after (remove staging (λ j. staged key (q ∷ qs) j (m j)))
          (λ j. staged key qs j (remove staging m j))
          (Shown-delete staging s (λ j. staged key (q ∷ qs) j (m j)) h)
          (λ j. remove-staged key q qs m j k) in
      let (same, final) =
        gather_lem key qs ps after (remove staging m) smaller (ground (arith, k)) in
      (
        rw (get_lem D operator view healthy staging s h.loaded, holds, same)
            (bind_prefixed q.1 (prefixed (joined qs) (gather key ps (cleared key qs after)))
              ∙ prefixed_append q.1 (joined qs) (gather key ps (cleared key qs after))),
        Shown-same (cleared key qs after) (λ j. unstaged key qs j (remove staging m j))
            (λ j. unstaged key (q ∷ qs) j (m j)) final (λ j. remove-unstaged key q qs m j),
      )

  pub sorted_lem :
      (given qs : List Part)
      → Shuffle given qs
      → increasing qs ≡ true
      → sort_by_key (map part_of given) ≡ map part_of qs
  sorted_lem given qs h k = sort_by_key-Shuffle given qs h ∙ sort_by_key-increasing qs k

  -- the parts of an upload on the disk, whatever their order of arrival
  pub Shown-uploaded :
      (upload : MultipartUpload) (ups qs : List Part) (s : LocalPlugin D) (m : Objects)
      → Shown s m
      → Shuffle ups qs
      → increasing qs ≡ true
      → Shown (upload_all upload ups s) (λ j. staged upload.key qs j (m j))
  Shown-uploaded upload ups qs s m h sent k =
      let good : numbered ups ≡ true = numbered-Shuffle ups qs sent ∙ increasing-numbered qs k in
      Shown-same (upload_all upload ups s) (λ j. staged upload.key ups j (m j))
        (λ j. staged upload.key qs j (m j)) (Shown-upload_all upload ups s m h good)
        (λ j. staged-Shuffle upload.key ups qs j (m j) sent good)

  pub gather_all :
      (key : Text) (qs : List Part) (s : LocalPlugin D) (m : Objects)
      → Shown s (λ j. staged key qs j (m j))
      → numbered qs ≡ true
      → gather key (map part_of qs) s ≡ (ok (joined qs), cleared key qs s)
  unfolding gather
  gather_all key qs s m h k =
      let (all_parts, final) = gather_lem key qs [] s m h k in
      ap (λ ps. gather key ps s) (sym (append-nil (map part_of qs)))
      ∙ all_parts
      ∙ rw (append-nil (joined qs)) refl

  pub gather-none :
      (key : Text) (p : CompletedPart) (ps : List CompletedPart) (s : LocalPlugin D) (m : Objects)
      → Shown s m
      → m (staging_key key p.part_number) ≡ none
      → gather key (p ∷ ps) s ≡ (err object_not_found, s)
  unfolding gather
  gather-none key p ps s m h absent =
      let staging = staging_key key p.part_number in
      rw (get_lem D operator view healthy staging s h.loaded, h.shown staging, absent) refl

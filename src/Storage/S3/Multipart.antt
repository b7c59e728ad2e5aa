-- ===== src/Storage/S3/Multipart.antt =====
-- The multi-part uploads of plugins/storage-s3/src/lib.rs, on a bucket whose calls all answer.
use free_box.Prelude.{◌≡◌, refl, some, List, [], ◌∷◌, bytes_eq_refl, arith}
use free_box.Outcome.{ok}
use free_box.Server.Files.Keys.{Text}
use free_box.Storage.{Bytes, MultipartUpload, CompletedPart}
use free_box.Storage.Local
use free_box.Storage.Local.{Operator, LocalPlugin}
use free_box.Storage.Local.Objects.{Objects, insert, IsHealthy, IsShown, put_lem, get_lem}
use free_box.Storage.Local.Staging.{Part}
use free_box.Storage.Local.Gather.{Shown-same}
use free_box.Storage.S3.{S3Plugin, put, get, upload_part, complete_multipart}

abbrev pub upload_all : {D : Type 0} → MultipartUpload → List Part → S3Plugin D → S3Plugin D
upload_all upload [] s = s
upload_all upload (q ∷ qs) s = upload_all upload qs (upload_part upload q.0 q.1 s).1

abbrev pub last_of : Part → List Part → Bytes
last_of q [] = q.1
last_of q (r ∷ rs) = last_of r rs

put-local :
    {D : Type 0} (key : Text) (bytes : Bytes) (s : S3Plugin D)
    → put key bytes s ≡ Local.put key bytes s
unfolding put Local.put
put-local key bytes s = refl

get-local : {D : Type 0} (key : Text) (s : S3Plugin D) → get key s ≡ Local.get key s
unfolding get Local.get
get-local key s = refl

module _ (D : Type 0) (operator : Operator D) (view : D → Objects)
    (healthy : IsHealthy D operator view) where
  -- the second of two objects at one key
  insert-insert :
      (key : Text) (xs ys : Bytes) (m : Objects) (j : Text)
      → insert key ys (insert key xs m) j ≡ insert key ys m j
  insert-insert key xs ys m j = ground arith

  IsShown-put :
      (key : Text) (bytes : Bytes) (s : LocalPlugin D) (m : Objects)
      → IsShown D operator view healthy s m
      → IsShown D operator view healthy
          (record s { disk = (operator.write key bytes s.disk).1 })
          (insert key bytes m)
  IsShown-put key bytes s m h = record {
    loaded = h.loaded;
    shown = λ k. rw (healthy.view-write key bytes s.disk k, h.shown k) refl;
  }

  Shown-upload_part :
      (upload : MultipartUpload) (q : Part) (s : LocalPlugin D) (m : Objects)
      → IsShown D operator view healthy s m
      → IsShown D operator view healthy (upload_part upload q.0 q.1 s).1 (insert upload.key q.1 m)
  unfolding upload_part
  Shown-upload_part upload q s m h =
      rw (put-local upload.key q.1 s, put_lem D operator view healthy upload.key q.1 s h.loaded)
        (IsShown-put upload.key q.1 s m h)

  Shown-upload_all :
      (upload : MultipartUpload) (q : Part) (qs : List Part) (s : LocalPlugin D) (m : Objects)
      → IsShown D operator view healthy s m
      → IsShown D operator view healthy
          (upload_all upload (q ∷ qs) s)
          (insert upload.key (last_of q qs) m)
  Shown-upload_all upload q [] s m h = Shown-upload_part upload q s m h
  Shown-upload_all upload q (r ∷ rs) s m h =
      let before = (upload_part upload q.0 q.1 s).1 in
      Shown-same D operator view healthy (upload_all upload (r ∷ rs) before) _ _
        (Shown-upload_all upload r rs before (insert upload.key q.1 m)
          (Shown-upload_part upload q s m h))
        (insert-insert upload.key q.1 (last_of r rs) m)

  -- Take a loaded plugin on a bucket whose calls all answer, and one part or more, with any numbers, in
  -- the order in which they are uploaded. Completing the upload succeeds, whatever parts it is given:
  -- the object is the part that was uploaded last, and the others are lost. Every other object is as it
  -- was.
  pub complete_multipart_keeps_last :
      (upload : MultipartUpload) (q : Part) (qs : List Part) (parts : List CompletedPart)
      (s : LocalPlugin D) (m : Objects)
      → IsShown D operator view healthy s m
      → let after = complete_multipart upload parts (upload_all upload (q ∷ qs) s) in
        (after.0 ≡ ok tt)
        × ((get upload.key after.1).0 ≡ ok (last_of q qs))
        × IsShown D operator view healthy after.1 (insert upload.key (last_of q qs) m)
  unfolding complete_multipart
  complete_multipart_keeps_last upload q qs parts s m h =
      let final = Shown-upload_all upload q qs s m h in
      let there : insert upload.key (last_of q qs) m upload.key ≡ some (last_of q qs) =
        rw (bytes_eq_refl upload.key) refl in
      (
        refl,
        rw
            (
              get-local upload.key (upload_all upload (q ∷ qs) s),
              get_lem D operator view healthy upload.key (upload_all upload (q ∷ qs) s)
                  final.loaded,
              final.shown upload.key,
              there,
            )
            refl,
        final,
      )

-- ===== src/Storage/Local/Multipart.antt =====
-- Multipart uploads of plugins/storage-local/src/lib.rs, on a disk whose calls all answer.
use free_box.Prelude.{◌≡◌, refl, ◌∙◌, ap, true, none, some, List, [], ◌∷◌, ◌++◌, bytes_eq_refl, map}
use free_box.Outcome.{ok, err}
use free_box.Server.Error.{object_not_found}
use free_box.Server.Files.Keys.{Text}
use free_box.Storage.{Bytes, MultipartUpload}
use free_box.Storage.Local.{
  Operator, LocalPlugin, get, delete, gather, complete_multipart, abort_multipart, sort_by_key,
  staging_key,
}
use free_box.Storage.Local.Objects.{
  Objects, insert, remove, IsHealthy, IsShown, put_lem, delete_lem, get_lem,
}
use free_box.Storage.Local.Staging.{
  Part, part_of, joined, Shuffle, numbered, increasing, staged, unstaged, increasing-numbered,
  increasing-front, map-part_of_append, staging_key-ne,
}
use free_box.Storage.Local.Gather.{
  upload_all, cleared, prefixed, unstaged-none, Shown-put, Shown-delete, gather_lem, sorted_lem,
  Shown-uploaded, Shown-upload_all, gather_all, gather-none,
}

module _ (D : Type 0) (operator : Operator D) (view : D → Objects)
    (healthy : IsHealthy D operator view) where
  -- Take a loaded plugin on a disk whose calls all answer, and parts with increasing numbers. However the
  -- order in which they are uploaded, and in which they are named at the end, completing the upload
  -- succeeds. The disk then holds the parts, joined by number, under the key and nothing under the
  -- parts' staging keys; every other object is as it was.
  pub complete_multipart_joins :
      (upload : MultipartUpload) (ups given qs : List Part) (s : LocalPlugin D) (m : Objects)
      → IsShown D operator view healthy s m
      → Shuffle ups qs
      → Shuffle given qs
      → increasing qs ≡ true
      → let after = complete_multipart upload (map part_of given) (upload_all upload ups s) in
        (after.0 ≡ ok tt)
        × IsShown D operator view healthy after.1
            (insert upload.key (joined qs) (λ j. unstaged upload.key qs j (m j)))
  unfolding complete_multipart
  complete_multipart_joins upload ups given qs s m h sent named k =
      let before = upload_all upload ups s in
      let here = Shown-uploaded D operator view healthy upload ups qs s m h sent k in
      let good = increasing-numbered qs k in
      let (all_parts, final) =
        gather_lem D operator view healthy upload.key qs [] before m here good in
      let last = cleared upload.key qs before in
      rw
        (
          sorted_lem D operator view healthy given qs named k,
          gather_all D operator view healthy upload.key qs before m here good,
        )
        (
          rw (put_lem D operator view healthy upload.key (joined qs) last final.loaded) refl,
          Shown-put D operator view healthy upload.key (joined qs) last
              (λ j. unstaged upload.key qs j (m j)) final,
        )

  -- Take an upload whose parts are all on the disk, of which there is at least one, and complete it with
  -- one more part that nobody uploaded, with the highest number. It is not found, the object at the
  -- key is as it was, and all the uploaded parts are gone: completing again with the uploaded parts
  -- alone is not found either and changes nothing.
  pub complete_multipart_destroys :
      (upload : MultipartUpload) (ups given again qs : List Part) (q x : Part) (s : LocalPlugin D)
      (m : Objects)
      → IsShown D operator view healthy s m
      → Shuffle ups (q ∷ qs)
      → Shuffle given (q ∷ qs ++ x ∷ [])
      → Shuffle again (q ∷ qs)
      → increasing (q ∷ qs ++ x ∷ []) ≡ true
      → m (staging_key upload.key x.0) ≡ none
      → let after = complete_multipart upload (map part_of given) (upload_all upload ups s) in
        (after.0 ≡ err object_not_found)
        × IsShown D operator view healthy after.1 (λ j. unstaged upload.key (q ∷ qs) j (m j))
        × (complete_multipart upload (map part_of again) after.1 ≡ (err object_not_found, after.1))
  unfolding complete_multipart
  complete_multipart_destroys upload ups given again qs q x s m h sent named retried k absent =
      let key = upload.key in
      let rs = q ∷ qs in
      let before = upload_all upload ups s in
      let front = increasing-front rs x k in
      let here = Shown-uploaded D operator view healthy upload ups rs s m h sent front in
      let (all_parts, final) =
        gather_lem D operator view healthy key rs (part_of x ∷ []) before m here
          (increasing-numbered rs front) in
      let last = cleared key rs before in
      let rest = λ (j : Text). unstaged key rs j (m j) in
      let lost : rest (staging_key key x.0) ≡ none =
        rw absent (unstaged-none key rs (staging_key key x.0)) in
      let gone : rest (staging_key key q.0) ≡ none =
        rw (bytes_eq_refl (staging_key key q.0)) refl in
      let listed : sort_by_key (map part_of given) ≡ map part_of rs ++ part_of x ∷ [] =
        sorted_lem D operator view healthy given (rs ++ x ∷ []) named k ∙ map-part_of_append rs x in
      let failing : gather key (sort_by_key (map part_of given)) before
          ≡ (err object_not_found, last) =
        ap (λ ps. gather key ps before) listed
        ∙ all_parts
        ∙ ap (prefixed (joined rs))
            (gather-none D operator view healthy key (part_of x) [] last rest final lost) in
      rw
        (
          failing,
          sorted_lem D operator view healthy again rs retried front,
          gather-none D operator view healthy key (part_of q) (map part_of qs) last rest final gone,
        )
        (refl, final, refl)

  -- Take an upload for a key at which there is an object; one part or more, with different numbers, are
  -- uploaded. Aborting the upload succeeds: the object is gone, and the first part that was uploaded is
  -- still on the disk.
  pub abort_multipart_lem :
      (upload : MultipartUpload) (q : Part) (qs : List Part) (old : Bytes) (s : LocalPlugin D)
      (m : Objects)
      → IsShown D operator view healthy s m
      → numbered (q ∷ qs) ≡ true
      → m upload.key ≡ some old
      → let after = abort_multipart upload (upload_all upload (q ∷ qs) s) in
        (after.0 ≡ ok tt)
        × ((get upload.key s).0 ≡ ok old)
        × ((get upload.key after.1).0 ≡ err object_not_found)
        × ((get (staging_key upload.key q.0) after.1).0 ≡ ok q.1)
  unfolding abort_multipart
  abort_multipart_lem upload q qs old s m h k there =
      let key = upload.key in
      let before = upload_all upload (q ∷ qs) s in
      let here = Shown-upload_all D operator view healthy upload (q ∷ qs) s m h k in
      let here_m = λ (j : Text). staged key (q ∷ qs) j (m j) in
      let final = Shown-delete D operator view healthy key before here_m here in
      let last = (delete key before).1 in
      let gone : remove key here_m key ≡ none = rw (bytes_eq_refl key) refl in
      let kept : remove key here_m (staging_key key q.0) ≡ some q.1 =
        rw (staging_key-ne key q.0, bytes_eq_refl (staging_key key q.0)) refl in
      (
        rw (delete_lem D operator view healthy key before here.loaded) refl,
        rw (get_lem D operator view healthy key s h.loaded, h.shown key, there) refl,
        rw (get_lem D operator view healthy key last final.loaded, final.shown key, gone) refl,
        rw
            (
              get_lem D operator view healthy (staging_key key q.0) last final.loaded,
              final.shown (staging_key key q.0),
              kept,
            )
            refl,
      )

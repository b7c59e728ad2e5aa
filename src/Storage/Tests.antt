-- ===== src/Storage/Tests.antt =====
-- The local storage plugin at concrete inputs, on a disk that is a function from keys to bytes.
use free_box.Storage.Toy.{operator, view, healthy, blank}
use free_box.Prelude.{◌≡◌, refl, none, some, [], ◌∷◌, map}
use free_box.Outcome.{ok, err}
use free_box.Server.Error.{object_not_found}
use free_box.Server.Files.Keys.{Text, codes}
use free_box.Storage.{MultipartUpload}
use free_box.Storage.Local.{LocalPlugin, complete_multipart}
use free_box.Storage.Local.Objects.{Objects, insert, IsShown}
use free_box.Storage.Local.Staging.{Part, part_of, finished, keep, swap, unstaged}
use free_box.Storage.Local.Gather.{upload_all}
use free_box.Storage.Local.Multipart.{complete_multipart_joins, complete_multipart_destroys}

abbrev plugin : Objects → LocalPlugin Objects
plugin d = record { operator = some operator; disk = d }

plugin-IsShown : (d : Objects) → IsShown Objects operator view healthy (plugin d) d
plugin-IsShown d = record { loaded = refl; shown = λ key. refl }

abbrev key : Text
key = codes "chunks"

abbrev upload : MultipartUpload
upload = record { upload_id = codes "id"; key = key }

abbrev first : Part
first = (1, 10 ∷ [])

abbrev second : Part
second = (2, 20 ∷ 21 ∷ [])

complete_multipart_joins_example :
    let after =
      complete_multipart upload
        (map part_of (first ∷ second ∷ []))
        (upload_all upload (second ∷ first ∷ []) (plugin blank)) in
    (after.0 ≡ ok tt)
    × IsShown Objects operator view healthy after.1
        (insert key (10 ∷ 20 ∷ 21 ∷ []) (λ j. unstaged key (first ∷ second ∷ []) j none))
complete_multipart_joins_example =
    complete_multipart_joins Objects operator view healthy upload (second ∷ first ∷ [])
      (first ∷ second ∷ []) (first ∷ second ∷ []) (plugin blank) blank (plugin-IsShown blank)
      (swap second first []) (keep first (second ∷ []) (second ∷ []) (keep second [] [] finished))
      refl

complete_multipart_destroys_example :
    let after =
      complete_multipart upload
        (map part_of (first ∷ second ∷ []))
        (upload_all upload (first ∷ []) (plugin blank)) in
    (after.0 ≡ err object_not_found)
    × IsShown Objects operator view healthy after.1 (λ j. unstaged key (first ∷ []) j none)
    × (complete_multipart upload (map part_of (first ∷ [])) after.1
        ≡ (err object_not_found, after.1))
complete_multipart_destroys_example =
    complete_multipart_destroys Objects operator view healthy upload (first ∷ [])
      (first ∷ second ∷ []) (first ∷ []) [] first second (plugin blank) blank (plugin-IsShown blank)
      (keep first [] [] finished)
      (keep first (second ∷ []) (second ∷ []) (keep second [] [] finished))
      (keep first [] [] finished) refl refl

abbrev shelf : Objects
shelf = insert key (7 ∷ []) blank

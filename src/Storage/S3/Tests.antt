-- ===== src/Storage/S3/Tests.antt =====
-- The S3 storage plugin at concrete inputs.
use free_box.Storage.Toy.{operator, view, healthy, blank}
use free_box.Prelude.{◌≡◌, refl, none, some, [], ◌∷◌, arith}
use free_box.Outcome.{ok}
use free_box.Server.Files.Keys.{codes}
use free_box.Storage.{MultipartUpload}
use free_box.Storage.Local.Objects.{Objects, insert, IsShown}
use free_box.Storage.Local.Staging.{part_of}
use free_box.Storage.S3.{S3Plugin, get, complete_multipart}
use free_box.Storage.S3.Multipart.{upload_all, complete_multipart_keeps_last}
use free_box.Storage.S3.Bucket.{BucketInfo, parse_list_buckets_xml, parse_rounds}
use free_box.Storage.S3.Bucket.Xml.{print_response, parse_list_buckets_xml-print_response}
use free_box.Storage.S3.Bucket.Rounds.{parse_rounds-enough}

abbrev plugin : S3Plugin Objects
plugin = record { operator = some operator; disk = blank }

plugin-IsShown : IsShown Objects operator view healthy plugin blank
plugin-IsShown = record { loaded = refl; shown = λ key. refl }

abbrev upload : MultipartUpload
upload = record { upload_id = codes "id"; key = codes "movie" }

-- the second of two parts is all that stays
complete_multipart_keeps_last_example :
    let after =
      complete_multipart upload
        (part_of (1, 10 ∷ []) ∷ part_of (2, 20 ∷ []) ∷ [])
        (upload_all upload ((1, 10 ∷ []) ∷ (2, 20 ∷ []) ∷ []) plugin) in
    (after.0 ≡ ok tt)
    × ((get (codes "movie") after.1).0 ≡ ok (20 ∷ []))
    × IsShown Objects operator view healthy after.1 (insert (codes "movie") (20 ∷ []) blank)
complete_multipart_keeps_last_example =
    complete_multipart_keeps_last Objects operator view healthy upload (1, 10 ∷ [])
      ((2, 20 ∷ []) ∷ []) (part_of (1, 10 ∷ []) ∷ part_of (2, 20 ∷ []) ∷ []) plugin blank
      plugin-IsShown

abbrev photos : BucketInfo
photos = record { name = codes "photos"; creation_date = some (codes "2024-05-01") }

abbrev music : BucketInfo
music = record { name = codes "music"; creation_date = none }

parse_list_buckets_xml-print_response_example :
    parse_list_buckets_xml (print_response (photos ∷ music ∷ [])) ≡ photos ∷ music ∷ []
parse_list_buckets_xml-print_response_example =
    parse_list_buckets_xml-print_response (photos ∷ music ∷ []) refl

parse_rounds-enough_example :
    parse_rounds 200 (codes "<Bucket><Name>photos</Name></Bucket>")
    ≡ parse_list_buckets_xml (codes "<Bucket><Name>photos</Name></Bucket>")
parse_rounds-enough_example =
    parse_rounds-enough 200 (codes "<Bucket><Name>photos</Name></Bucket>") (omega arith)

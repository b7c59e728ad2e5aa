-- ===== src/Storage/S3/Bucket.antt =====
-- plugins/storage-s3/src/bucket.rs: buckets are created and listed by requests that the plugin signs itself.
pub mod Xml
pub mod Rounds
use free_box.Prelude.{
  ℕ, zero, suc, ◌+◌, Bool, true, false, ◌&&◌, ◌||◌, Option, none, some, List, [], ◌∷◌, ◌++◌, length,
  take, drop, leb, ltb, ◌==◌, if◌then◌else◌,
}
use free_box.Outcome.{unwrap_or, Result, ok, err, ok_or}
use free_box.Server.Error.{CoreError}
use free_box.Server.Files.Keys.{Text, codes}
use free_box.Texts.{find, is_empty, trim_end_slashes}
use free_box.Storage.{Bytes, Call, pure, lift, ◌>>=◌, ◌>>◌}
use free_box.Storage.S3.Sigv4.{Digests, Stamp, Signed, sign}

pub record BucketInfo : Type 0 where
  pub name : Text
  pub creation_date : Option Text

pub record Request : Type 0 where
  pub method : Text
  pub url : Text
  pub headers : List (Text × Text)

-- `text` is the body, if it can be read.
pub record Response : Type 0 where
  pub status : ℕ
  pub text : Option Text

-- The crates `url` and `reqwest`: the host of a URL that can be parsed, which has one or not, and a
-- request's response, if there is one.
pub record Web (D : Type 0) : Type 0 where
  pub url_parse : Text → Option (Option Text)
  pub send : Request → D → Option Response × D

-- `StatusCode::is_success`
abbrev pub is_success : ℕ → Bool
is_success status = leb 200 status && ltb status 300

-- `extract_tag`: the text between the first opening tag and the closing tag after it
abbrev pub upto : Option ℕ → Text → Option Text
upto none text = none
upto (some i) text = some (take i text)

abbrev pub from_tag : Text → Option ℕ → Text → Text → Option Text
from_tag tag none s close = none
from_tag tag (some i) s close =
    let inner = drop (i + (length tag + 2)) s in upto (find close inner) inner

unfoldable pub extract_tag : Text → Text → Option Text
unfolding find
extract_tag s tag =
    from_tag tag (find (b'<' ∷ tag ++ b'>' ∷ []) s) s (codes "</" ++ tag ++ b'>' ∷ [])

abbrev pub bucket_open : Text
bucket_open = codes "<Bucket>"

abbrev pub bucket_close : Text
bucket_close = codes "</Bucket>"

-- one round's bucket, if it has a name
abbrev pub push_bucket : Text → List BucketInfo → List BucketInfo
push_bucket chunk buckets =
    let name = unwrap_or (extract_tag chunk (codes "Name")) [] in
    if is_empty name
    then buckets
    else record { name = name; creation_date = extract_tag chunk (codes "CreationDate") } ∷ buckets

-- The loop over `xml[pos..]`, for so many rounds.
unfoldable pub parse_rounds : ℕ → Text → List BucketInfo
unfolding extract_tag find
parse_rounds zero xml = []
parse_rounds (suc rounds) xml = elim (find bucket_open xml) [
  | none ↦ []
  | some rel ↦
      let start = drop rel xml in
      elim (find bucket_close start) [
        | none ↦ []
        | some e ↦
            let size = e + length bucket_close in
            push_bucket (take size start) (parse_rounds rounds (drop size start))
      ]
]

unfoldable pub parse_list_buckets_xml : Text → List BucketInfo
parse_list_buckets_xml xml = parse_rounds (length xml) xml

module _ {D : Type 0} (web : Web D) (digests : Digests) where
  abbrev signed_request : Text → Text → Text → Signed → Request
  signed_request method url host signed = record {
    method = method;
    url = url;
    headers =
        (codes "Host", host)
        ∷ (codes "x-amz-content-sha256", signed.x_amz_content_sha256)
        ∷ (codes "x-amz-date", signed.x_amz_date)
        ∷ (codes "Authorization", signed.authorization)
        ∷ [];
  }

  abbrev fetch : Request → Call D Response
  fetch request d =
      let (response, after) = web.send request d in (ok_or response CoreError.storage, after)

  -- `now` is the time of the call; 409 is a bucket that exists.
  unfoldable pub create_bucket : Stamp → Text → Text → Text → Text → Text → Call D (Unit {0})
  unfolding sign trim_end_slashes
  create_bucket now endpoint bucket region access_key secret_key = do
    let url = trim_end_slashes endpoint ++ b'/' ∷ bucket
    parsed ← lift (ok_or (web.url_parse url) CoreError.config)
    let host = unwrap_or parsed []
    let signed =
        sign digests now (codes "PUT") (b'/' ∷ bucket) [] host [] access_key secret_key region
    response ← fetch (signed_request (codes "PUT") url host signed)
    if is_success response.status || response.status == 409
        then pure tt
        else lift (err CoreError.storage)

  unfoldable pub list_buckets : Stamp → Text → Text → Text → Text → Call D (List BucketInfo)
  unfolding sign trim_end_slashes parse_list_buckets_xml
  list_buckets now endpoint region access_key secret_key = do
    let base = trim_end_slashes endpoint
    parsed ← lift (ok_or (web.url_parse base) CoreError.config)
    let host = unwrap_or parsed []
    let signed = sign digests now (codes "GET") (b'/' ∷ []) [] host [] access_key secret_key region
    response ← fetch (signed_request (codes "GET") base host signed)
    if is_success response.status
        then pure (parse_list_buckets_xml (unwrap_or response.text []))
        else lift (err CoreError.storage)

  unfoldable pub ensure_bucket_exists : Stamp → Text → Text → Text → Text → Text → Call D (Unit {0})
  unfolding create_bucket
  ensure_bucket_exists now endpoint bucket region access_key secret_key =
      create_bucket now endpoint bucket region access_key secret_key

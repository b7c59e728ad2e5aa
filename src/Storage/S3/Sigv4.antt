-- ===== src/Storage/S3/Sigv4.antt =====
-- plugins/storage-s3/src/sigv4.rs: the signature of a request by AWS's fourth scheme. The digests are the
-- crates `sha2`, `hmac` and `hex`.
use free_box.Prelude.{[], ◌∷◌, ◌++◌}
use free_box.Server.Files.Keys.{Text, codes}
use free_box.Storage.{Bytes}

pub record Digests : Type 0 where
  pub sha256 : Bytes → Bytes
  -- the key, then the data
  pub hmac_sha256 : Bytes → Bytes → Bytes
  pub encode : Bytes → Text

-- The time of the call, in the formats `%Y%m%d` and `%Y%m%dT%H%M%SZ`.
pub record Stamp : Type 0 where
  pub date : Text
  pub datetime : Text

pub record Signed : Type 0 where
  pub authorization : Text
  pub x_amz_date : Text
  pub x_amz_content_sha256 : Text

abbrev pub signed_headers : Text
signed_headers = codes "host;x-amz-content-sha256;x-amz-date"

module _ (digests : Digests) where
  abbrev pub sha256_hex : Bytes → Text
  sha256_hex bytes = digests.encode (digests.sha256 bytes)

  unfoldable pub signing_key : Text → Text → Text → Text → Bytes
  signing_key secret_key date region service =
      let k_date = digests.hmac_sha256 (codes "AWS4" ++ secret_key) date in
      let k_region = digests.hmac_sha256 k_date region in
      let k_service = digests.hmac_sha256 k_region service in
      digests.hmac_sha256 k_service (codes "aws4_request")

  abbrev pub canonical_headers : Text → Text → Text → Text
  canonical_headers host payload_hash datetime =
      codes "host:"
      ++ host
      ++ b'\n' ∷ codes "x-amz-content-sha256:"
      ++ payload_hash
      ++ b'\n' ∷ codes "x-amz-date:"
      ++ datetime
      ++ b'\n' ∷ []

  abbrev pub canonical_request : Text → Text → Text → Text → Text → Text → Text
  canonical_request method uri query_string host payload_hash datetime =
      method
      ++ b'\n' ∷ uri
      ++ b'\n' ∷ query_string
      ++ b'\n' ∷ canonical_headers host payload_hash datetime
      ++ b'\n' ∷ signed_headers
      ++ b'\n' ∷ payload_hash

  abbrev pub credential_scope : Text → Text → Text
  credential_scope date region = date ++ b'/' ∷ region ++ codes "/s3/aws4_request"

  abbrev pub string_to_sign : Stamp → Text → Text → Text
  string_to_sign now region cr_hash =
      codes "AWS4-HMAC-SHA256"
      ++ b'\n' ∷ now.datetime
      ++ b'\n' ∷ credential_scope now.date region
      ++ b'\n' ∷ cr_hash

  abbrev pub signature : Stamp → Text → Text → Text → Text
  signature now secret_key region request = digests.encode (
      digests.hmac_sha256 (signing_key secret_key now.date region (codes "s3"))
        (string_to_sign now region (sha256_hex request)))

  unfoldable pub sign : Stamp → Text → Text → Text → Text → Bytes → Text → Text → Text → Signed
  unfolding signing_key
  sign now method uri query_string host payload access_key secret_key region =
      let payload_hash = sha256_hex payload in
      let request = canonical_request method uri query_string host payload_hash now.datetime in
      record {
        authorization =
            codes "AWS4-HMAC-SHA256 Credential="
            ++ access_key
            ++ b'/' ∷ credential_scope now.date region
            ++ codes ",SignedHeaders="
            ++ signed_headers
            ++ codes ",Signature="
            ++ signature now secret_key region request;
        x_amz_date = now.datetime;
        x_amz_content_sha256 = payload_hash;
      }

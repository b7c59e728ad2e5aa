-- ===== src/Server/Datasources/Aws.antt =====
-- The data sources of apps/server/src/api/storage.rs without a custom endpoint, which means AWS.
use free_box.Prelude.{◌≡◌, refl, ap, true, false, none, [], ◌∷◌}
use free_box.Outcome.{err}
use free_box.Server.Error.{AppError, internal}
use free_box.Server.Handler.{Handler, continue, ◌>>=◌}
use free_box.Storage.{Call}
use free_box.Server.Files.Keys.{Text}
use free_box.Server.Config.{Config}
use free_box.Texts.{is_empty}
use free_box.Storage.S3.Sigv4.{Digests, Stamp}
use free_box.Storage.S3.Bucket
use free_box.Storage.S3.Bucket.{Web}
use free_box.Server.Datasources.{
  uses_s3_compatible_storage, account_buckets, or_internal, list_datasources, list_buckets,
  create_bucket,
}

-- A chain stops at a call that fails.
stops :
    {S A B : Type 0} (m : Handler S A) (f : A → Handler S B) (s t : S) (e : AppError)
    → m s ≡ (err e, t)
    → (m >>= f) s ≡ (err e, t)
stops m f s t e h = ap (λ r. continue r.0 r.1 f) h

module _ {S : Type 0} (web : Web S) (digests : Digests) (now : Stamp) (cfg : Config) where
  account_buckets-aws :
      (s : S)
      → cfg.storage_s3_endpoint ≡ []
      → web.url_parse [] ≡ none
      → account_buckets web digests now cfg s ≡ (err internal, s)
  unfolding Bucket.list_buckets
  account_buckets-aws s endpoint bare = rw (endpoint, bare) refl

  abbrev new_bucket : Text → Call S (Unit {0})
  new_bucket name =
      Bucket.create_bucket web digests now cfg.storage_s3_endpoint name cfg.storage_s3_region
        cfg.storage_s3_access_key cfg.storage_s3_secret_key

  new_bucket-aws :
      (name : Text) (s : S)
      → cfg.storage_s3_endpoint ≡ []
      → web.url_parse (b'/' ∷ name) ≡ none
      → or_internal (new_bucket name) s ≡ (err internal, s)
  unfolding Bucket.create_bucket
  new_bucket-aws name s endpoint path = rw (endpoint, path) refl

-- Take an S3 backend without a custom endpoint, which is how AWS is configured, and a parser that refuses
-- a URL without a scheme. Listing the data sources, listing the buckets and creating a bucket with a
-- name are internal errors, always, and nothing is sent.
pub bucket_management-aws :
    {S : Type 0} (web : Web S) (digests : Digests) (now : Stamp) (cfg : Config) (name : Text)
    (s : S)
    → uses_s3_compatible_storage cfg ≡ true
    → cfg.storage_s3_endpoint ≡ []
    → is_empty name ≡ false
    → web.url_parse [] ≡ none
    → web.url_parse (b'/' ∷ name) ≡ none
    → (list_datasources web digests now cfg s ≡ (err internal, s))
      × (list_buckets web digests now cfg s ≡ (err internal, s))
      × (create_bucket web digests now cfg name s ≡ (err internal, s))
unfolding list_datasources list_buckets create_bucket
bucket_management-aws web digests now cfg name s s3 endpoint named bare path =
    let listed = account_buckets-aws web digests now cfg s endpoint bare in
    let created = new_bucket-aws web digests now cfg name s endpoint path in
    (
      rw s3 (stops (account_buckets web digests now cfg) _ s s internal listed),
      rw s3 (stops (account_buckets web digests now cfg) _ s s internal listed),
      rw (s3, named)
          (stops (or_internal (new_bucket web digests now cfg name)) _ s s internal created),
    )

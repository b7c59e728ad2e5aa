-- ===== src/Server/Datasources/Listed.antt =====
-- The data sources that apps/server/src/api/storage.rs makes of the account's buckets.
use free_box.Prelude.{
  ◌≡◌, refl, ap, ◌∙◌, true, List, [], ◌∷◌, map, bytes_eq, bytes_eq_refl, All, if◌then◌else◌,
}
use free_box.Server.Files.Keys.{Text, codes}
use free_box.Texts.Trim.{trim}
use free_box.Server.Config.{Config}
use free_box.Storage.S3.Bucket.{BucketInfo}
use free_box.Server.Datasources.{
  DatasourceItem, bucket_item, items_of, dedup, sort_names, s3_datasources_from_config_and_buckets,
}
use free_box.Server.Datasources.Names.{is_among, is_ascending, dedup-sort_names}

abbrev pub names_of : List DatasourceItem → List Text
names_of items = map (λ (d : DatasourceItem). d.name) items

abbrev pub bucket_names : List BucketInfo → List Text
bucket_names buckets = map (λ (b : BucketInfo). b.name) buckets

-- An item is the configured one exactly if it has the trimmed name of the configuration's bucket.
abbrev pub HasStatus : Config → DatasourceItem → Type 0
HasStatus cfg d = d.status ≡ (
    if bytes_eq d.name (trim cfg.storage_s3_bucket) then codes "configured" else codes "available")

names_of-bucket_item :
    (cfg : Config) (names : List Text) → names_of (map (bucket_item cfg) names) ≡ names
unfolding bucket_item
names_of-bucket_item cfg [] = refl
names_of-bucket_item cfg (x ∷ xs) = ap (λ ys. x ∷ ys) (names_of-bucket_item cfg xs)

HasStatus-bucket_item :
    (cfg : Config) (names : List Text) → All (HasStatus cfg) (map (bucket_item cfg) names)
unfolding bucket_item
HasStatus-bucket_item cfg [] = tt
HasStatus-bucket_item cfg (x ∷ xs) = (refl, HasStatus-bucket_item cfg xs)

-- An item of a name that is there is one of the names.
filled :
    (cfg : Config) (name : Text) (names : List Text)
    → is_among name names ≡ true
    → items_of cfg names ≡ map (bucket_item cfg) names
filled cfg name [] h = cc h
filled cfg name (x ∷ xs) h = refl

-- Take an account with one bucket or more. The data sources have exactly the names of the buckets, in
-- their order by bytes and each one once, and an item is `configured` exactly if it has the trimmed name
-- of the bucket that the configuration names, and else `available`.
pub s3_datasources_lem :
    (cfg : Config) (b : BucketInfo) (bs : List BucketInfo)
    → let items = s3_datasources_from_config_and_buckets cfg (b ∷ bs) in
      (is_ascending (names_of items) ≡ true)
      × ((name : Text) → is_among name (names_of items) ≡ is_among name (bucket_names (b ∷ bs)))
      × All (HasStatus cfg) items
unfolding s3_datasources_from_config_and_buckets
s3_datasources_lem cfg b bs =
    let names = dedup (sort_names (bucket_names (b ∷ bs))) in
    let (ascends, same) = dedup-sort_names (bucket_names (b ∷ bs)) in
    let there : is_among b.name names ≡ true = same b.name ∙ rw (bytes_eq_refl b.name) refl in
    rw (filled cfg b.name names there, names_of-bucket_item cfg names)
      (ascends, same, HasStatus-bucket_item cfg names)

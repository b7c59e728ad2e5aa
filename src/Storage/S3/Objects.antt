-- ===== src/Storage/S3/Objects.antt =====
-- plugins/storage-s3/src/lib.rs on an ideal bucket: a map of objects too.
use free_box.Prelude.{◌≡◌, refl, Option, none, some, List, [], ◌∷◌}
use free_box.Outcome.{Result, ok, err}
use free_box.Server.Error.{CoreError}
use free_box.Server.Files.Keys.{Text}
use free_box.Storage.{continue, pure}
use free_box.Storage.Local
use free_box.Storage.Local.{
  Operator, Metadata, LocalPlugin, local_provider, op, map_err, not_found_or_storage,
}
use free_box.Storage.Local.Objects.{
  Objects, IsHealthy, IsShown, Command, to_put, to_get, to_delete, to_exists, to_head, size, reply,
  serve, promised, run_all, local_provider_implements_objects,
}
use free_box.Storage.S3.{put, get, delete, exists, head, s3_provider, object_meta}

-- The entity tag is all that the two backends report differently.
same_size :
    {S : Type 0} (key : Text) (r : Result CoreError Metadata) (s : S)
    → reply (λ m. size m.size) (continue r s (λ m. pure (object_meta key m)))
      ≡ reply (λ m. size m.size) (continue r s (λ m. pure (Local.object_meta key m)))
same_size key (ok m) s = refl
same_size key (err e) s = refl

head_same :
    {D : Type 0} (key : Text) (cell : Option (Operator D)) (d : D)
    → reply (λ m. size m.size) (head key (record { operator = cell; disk = d }))
      ≡ reply (λ m. size m.size) (Local.head key (record { operator = cell; disk = d }))
unfolding head Local.head op
head_same key none d = refl
head_same key (some operator) d =
    same_size key (map_err not_found_or_storage (operator.stat_with key d)) _

module _ {D : Type 0} (url_parse : Text → Option Text) where
  serve-s3_provider :
      (c : Command) (s : LocalPlugin D)
      → serve (s3_provider url_parse) c s ≡ serve local_provider c s
  unfolding put get delete exists Local.put Local.get Local.delete Local.exists
  serve-s3_provider (to_put key bytes) s = refl
  serve-s3_provider (to_get key) s = refl
  serve-s3_provider (to_delete key) s = refl
  serve-s3_provider (to_exists key) s = refl
  serve-s3_provider (to_head key) s = head_same key s.operator s.disk

  run_all-s3_provider :
      (cs : List Command) (s : LocalPlugin D)
      → run_all (serve (s3_provider url_parse)) cs s ≡ run_all (serve local_provider) cs s
  run_all-s3_provider [] s = refl
  run_all-s3_provider (c ∷ cs) s =
      rw (serve-s3_provider c s, run_all-s3_provider cs (serve local_provider c s).1) refl

  -- Take a loaded plugin on a bucket whose calls all answer. Whatever calls of `put`, `get`, `delete`,
  -- `exists` and `head` are made, in any order, each answers what a map of objects with those calls
  -- answers, and the bucket holds that map's objects at the end.
  pub s3_provider_implements_objects :
      (operator : Operator D) (view : D → Objects) (healthy : IsHealthy D operator view)
      (cs : List Command) (s : LocalPlugin D) (m : Objects)
      → IsShown D operator view healthy s m
      → let after = run_all (serve (s3_provider url_parse)) cs s in
        (after.0 ≡ (run_all promised cs m).0)
        × IsShown D operator view healthy after.1 (run_all promised cs m).1
  s3_provider_implements_objects operator view healthy cs s m h =
      rw (run_all-s3_provider cs s)
        (local_provider_implements_objects D operator view healthy cs s m h)

-- ===== src/Storage/Local/Objects.antt =====
-- plugins/storage-local/src/lib.rs on an ideal disk: a map of objects, as packages/core/src/storage.rs has it.
use free_box.Prelude.{
  ℕ, ◌≡◌, refl, Bool, true, false, Option, none, some, List, [], ◌∷◌, bytes_eq, if◌then◌else◌,
  length,
}
use free_box.Outcome.{Result, ok, err, ok_or}
use free_box.Server.Error.{CoreError}
use free_box.Server.Files.Keys.{Text}
use free_box.Storage.{continue, pure, Bytes, StorageProvider}
use free_box.Storage.Local.{
  Fault, not_found, Operator, Metadata, LocalPlugin, put, get, delete, exists, head, op,
  local_provider, map_err, object_meta, not_found_or_storage, unexpected,
}

abbrev pub Objects : Type 0
Objects = Text → Option Bytes

abbrev pub insert : Text → Bytes → Objects → Objects
insert key bytes m k = if bytes_eq key k then some bytes else m k

abbrev pub remove : Text → Objects → Objects
remove key m k = if bytes_eq key k then none else m k

abbrev pub is_some {ℓ} : {A : Type ℓ} → Option A → Bool
is_some none = false
is_some (some a) = true

abbrev pub size_of : Option Bytes → Option ℕ
size_of none = none
size_of (some bytes) = some (length bytes)

abbrev pub length_of : Result Fault Metadata → Result Fault ℕ
length_of (ok m) = ok m.content_length
length_of (err e) = err e

-- An ideal disk: every call answers, and every path is a name of its own for what `view` holds. On a file
-- system this is so for paths that are written in one way and of which none is a directory of another, as
-- the storage keys of chunks are; for other paths it is not. A path that is deleted twice is no error.
pub record IsHealthy (D : Type 0) (operator : Operator D) (view : D → Objects) : Type 0 where
  pub write_ok : (key : Text) (bytes : Bytes) (d : D) → (operator.write key bytes d).0 ≡ ok tt
  pub view-write :
      (key : Text) (bytes : Bytes) (d : D) (k : Text)
      → view (operator.write key bytes d).1 k ≡ insert key bytes (view d) k
  pub delete_ok : (key : Text) (d : D) → (operator.delete key d).0 ≡ ok tt
  pub view-delete :
      (key : Text) (d : D) (k : Text) → view (operator.delete key d).1 k ≡ remove key (view d) k
  pub read_view : (key : Text) (d : D) → operator.read key d ≡ ok_or (view d key) not_found
  pub is_exist_view : (key : Text) (d : D) → operator.is_exist key d ≡ ok (is_some (view d key))
  pub stat_view :
      (key : Text) (d : D)
      → length_of (operator.stat_with key d) ≡ ok_or (size_of (view d key)) not_found

-- Calls of the interface and what they answer.
pub data Command : Type 0 where
  to_put : Text → Bytes → Command
  to_get to_delete to_exists to_head : Text → Command

pub data Reply : Type 0 where
  done : Reply
  content : Bytes → Reply
  answer : Bool → Reply
  size : ℕ → Reply
  failed : CoreError → Reply

abbrev pub reply : {A S : Type 0} → (A → Reply) → Result CoreError A × S → Reply × S
reply f (ok a, s) = (f a, s)
reply f (err e, s) = (failed e, s)

abbrev pub serve : {S : Type 0} → StorageProvider S → Command → S → Reply × S
serve p (to_put key bytes) s = reply (λ u. done) (p.put key bytes s)
serve p (to_get key) s = reply content (p.get key s)
serve p (to_delete key) s = reply (λ u. done) (p.delete key s)
serve p (to_exists key) s = reply answer (p.exists key s)
serve p (to_head key) s = reply (λ m. size m.size) (p.head key s)

-- The promise: `put` overwrites, `delete` of a missing key does nothing, and `get` and `head` of a missing
-- key are not found.
abbrev pub found : {A : Type 0} → (A → Reply) → Option A → Reply
found f none = failed CoreError.object_not_found
found f (some a) = f a

abbrev pub promised : Command → Objects → Reply × Objects
promised (to_put key bytes) m = (done, insert key bytes m)
promised (to_get key) m = (found content (m key), m)
promised (to_delete key) m = (done, remove key m)
promised (to_exists key) m = (answer (is_some (m key)), m)
promised (to_head key) m = (found size (size_of (m key)), m)

abbrev pub run_all : {S : Type 0} → (Command → S → Reply × S) → List Command → S → List Reply × S
run_all step [] s = ([], s)
run_all step (c ∷ cs) s =
    let first = step c s in let rest = run_all step cs first.1 in (first.0 ∷ rest.0, rest.1)

module _ (D : Type 0) (operator : Operator D) (view : D → Objects)
    (healthy : IsHealthy D operator view) where
  -- The plugin is loaded, and its disk holds the objects.
  pub record IsShown (s : LocalPlugin D) (m : Objects) : Type 0 where
    pub loaded : s.operator ≡ some operator
    pub shown : (key : Text) → view s.disk key ≡ m key

  pub put_lem :
      (key : Text) (bytes : Bytes) (s : LocalPlugin D)
      → s.operator ≡ some operator
      → put key bytes s ≡ (ok tt, record s { disk = (operator.write key bytes s.disk).1 })
  unfolding put op
  put_lem key bytes s h = rw (h, healthy.write_ok key bytes s.disk) refl

  pub delete_lem :
      (key : Text) (s : LocalPlugin D)
      → s.operator ≡ some operator
      → delete key s ≡ (ok tt, record s { disk = (operator.delete key s.disk).1 })
  unfolding delete op
  delete_lem key s h = rw (h, healthy.delete_ok key s.disk) refl

  missing_or :
      {A : Type 0} (o : Option A)
      → map_err not_found_or_storage (ok_or o not_found) ≡ ok_or o CoreError.object_not_found
  missing_or none = refl
  missing_or (some a) = refl

  pub get_lem :
      (key : Text) (s : LocalPlugin D)
      → s.operator ≡ some operator
      → get key s ≡ (ok_or (view s.disk key) CoreError.object_not_found, s)
  unfolding get op
  get_lem key s h = rw (h, healthy.read_view key s.disk, missing_or (view s.disk key)) refl

  exists_lem :
      (key : Text) (s : LocalPlugin D)
      → s.operator ≡ some operator
      → exists key s ≡ (ok (is_some (view s.disk key)), s)
  unfolding exists op
  exists_lem key s h = rw (h, healthy.is_exist_view key s.disk) refl

  -- the size that `head` reports
  measured :
      (key : Text) (s : LocalPlugin D) (r : Result Fault Metadata) (o : Option ℕ)
      → length_of r ≡ ok_or o not_found
      → (reply
          (λ m. size m.size)
          ((λ (t : Result CoreError Metadata × LocalPlugin D).
              continue t.0 t.1 (λ m. pure (object_meta key m)))
            (map_err not_found_or_storage r, s)))
        ≡ (found size o, s)
  measured key s (ok m) none h = cc h
  measured key s (ok m) (some n) h = let same : m.content_length ≡ n = cc h in rw same refl
  measured key s (err not_found) none h = refl
  measured key s (err unexpected) none h = cc h
  measured key s (err e) (some n) h = cc h

  head_lem :
      (key : Text) (s : LocalPlugin D)
      → s.operator ≡ some operator
      → reply (λ m. size m.size) (head key s) ≡ (found size (size_of (view s.disk key)), s)
  unfolding head op
  head_lem key s h = rw h (
      measured key (record s { operator = some operator }) (operator.stat_with key s.disk)
        (size_of (view s.disk key)) (healthy.stat_view key s.disk))

  found_lem :
      {A : Type 0} (f : A → Reply) (o : Option A) (s : LocalPlugin D)
      → reply f (ok_or o CoreError.object_not_found, s) ≡ (found f o, s)
  found_lem f none s = refl
  found_lem f (some a) s = refl

  serve_lem :
      (c : Command) (s : LocalPlugin D) (m : Objects)
      → IsShown s m
      → ((serve local_provider c s).0 ≡ (promised c m).0)
        × IsShown (serve local_provider c s).1 (promised c m).1
  serve_lem (to_put key bytes) s m h = rw (put_lem key bytes s h.loaded) (
    refl,
    record {
      loaded = h.loaded;
      shown = λ k. rw (healthy.view-write key bytes s.disk k, h.shown k) refl;
    },
  )
  serve_lem (to_get key) s m h =
      rw (get_lem key s h.loaded, found_lem content (view s.disk key) s, h.shown key) (refl, h)
  serve_lem (to_delete key) s m h = rw (delete_lem key s h.loaded) (
    refl,
    record {
      loaded = h.loaded;
      shown = λ k. rw (healthy.view-delete key s.disk k, h.shown k) refl;
    },
  )
  serve_lem (to_exists key) s m h = rw (exists_lem key s h.loaded, h.shown key) (refl, h)
  serve_lem (to_head key) s m h = rw (head_lem key s h.loaded, h.shown key) (refl, h)

  -- Take a loaded plugin on an ideal disk. Whatever calls of `put`, `get`, `delete`,
  -- `exists` and `head` are made, in any order, each answers what a map of objects with those calls
  -- answers, and the disk holds that map's objects at the end.
  pub local_provider_implements_objects :
      (cs : List Command) (s : LocalPlugin D) (m : Objects)
      → IsShown s m
      → ((run_all (serve local_provider) cs s).0 ≡ (run_all promised cs m).0)
        × IsShown (run_all (serve local_provider) cs s).1 (run_all promised cs m).1
  local_provider_implements_objects [] s m h = (refl, h)
  local_provider_implements_objects (c ∷ cs) s m h =
      let (same, shown) = serve_lem c s m h in
      let (rest, final) =
        local_provider_implements_objects cs (serve local_provider c s).1 (promised c m).1 shown in
      (rw (same, rest) refl, final)

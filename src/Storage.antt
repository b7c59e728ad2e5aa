-- ===== src/Storage.antt =====
-- packages/core/src/storage.rs: the interface of a storage backend. A key is the list of its UTF-8 bytes; a
-- call reads and writes the backend's state and may stop with an error of the core crate.
pub mod Local
pub mod S3
mod Toy
mod Tests
use free_box.Prelude.{ℕ, Bool, Option, none, some, List}
use free_box.Outcome.{Result, ok, err}
use free_box.Server.Error.{CoreError}
use free_box.Server.Files.Keys.{Text}

abbrev pub Bytes : Type 0
Bytes = List ℕ

abbrev pub Call : Type 0 → Type 0 → Type 0
Call S A = S → Result CoreError A × S

module _ {S A : Type 0} where
  abbrev pub pure : A → Call S A
  pure a s = (ok a, s)

  abbrev pub lift : Result CoreError A → Call S A
  lift r s = (r, s)

  -- `.ok()` on a result that nobody looks at
  abbrev pub ignore : Call S A → Call S (Unit {0})
  ignore m s = (ok tt, (m s).1)

module _ {S A B : Type 0} where
  abbrev pub continue : Result CoreError A → S → (A → Call S B) → Result CoreError B × S
  continue (ok a) s f = f a s
  continue (err e) s f = (err e, s)

  infixl 5 ◌>>=◌
  abbrev pub ◌>>=◌ : Call S A → (A → Call S B) → Call S B
  ◌>>=◌ m f s = let (r, s') = m s in continue r s' f

module _ {S B : Type 0} where
  infixl 5 ◌>>◌
  abbrev pub ◌>>◌ : Call S (Unit {0}) → Call S B → Call S B
  m >> n = m >>= λ _. n

pub record ObjectMeta : Type 0 where
  pub key : Text
  pub size : ℕ
  pub last_modified : ℕ
  pub etag : Option Text

pub record MultipartUpload : Type 0 where
  pub upload_id : Text
  pub key : Text

pub record CompletedPart : Type 0 where
  pub part_number : ℕ
  pub etag : Text

pub record StorageCapabilities : Type 0 where
  pub versioning : Bool
  pub server_side_copy : Bool
  pub presigned_urls : Bool
  pub multipart_upload : Bool
  pub max_single_put_bytes : Option ℕ

-- The trait. `create_multipart` takes the id that a backend may draw.
pub record StorageProvider (S : Type 0) : Type 0 where
  pub id : Text
  pub put : Text → Bytes → Call S (Unit {0})
  pub get : Text → Call S Bytes
  pub get_range : Text → ℕ → ℕ → Call S Bytes
  pub delete : Text → Call S (Unit {0})
  pub list : Text → Call S (List ObjectMeta)
  pub exists : Text → Call S Bool
  pub create_multipart : Text → Text → Call S MultipartUpload
  pub upload_part : MultipartUpload → ℕ → Bytes → Call S CompletedPart
  pub complete_multipart : MultipartUpload → List CompletedPart → Call S (Unit {0})
  pub abort_multipart : MultipartUpload → Call S (Unit {0})
  pub head : Text → Call S ObjectMeta
  pub capabilities : StorageCapabilities
  pub presign_get : Text → ℕ → Call S Text

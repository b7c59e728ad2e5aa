-- ===== src/Server/Files/State.antt =====
-- The state behind apps/server/src/api/files.rs: the tables `uploads` and `files` of
-- apps/server/migrations/001_initial_schema.sql, and the storage provider's objects. An INT or BIGINT
-- column that its CHECK keeps from being negative is a natural number.
use free_box.Prelude.{
  ◌≡◌, ◌≢◌, ◌⊎◌, inl, inr, Bool-cases, ==_iff, arith, ℕ, ◌+◌, Bool, true, false, ◌&&◌, Option, none,
  some, List, [], ◌∷◌, bytes_eq, ◌==◌, if◌then◌else◌,
}
use free_box.Server.Files.Keys.{Text}

abbrev pub Body : Type 0
Body = List ℕ

pub record Upload : Type 0 where
  pub user_id : ℕ
  pub total_chunks : ℕ
  pub chunks_received : ℕ
  pub size_bytes : ℕ
  pub encrypted_key_envelope : Text
  pub content_hash : Text
  pub encrypted_name : Text

pub record FileRow : Type 0 where
  pub id : ℕ
  pub user_id : ℕ
  pub total_chunks : ℕ
  pub size_bytes : ℕ
  pub encrypted_key_envelope : Text
  pub content_hash : Text
  pub encrypted_name : Text
  pub created_at : ℕ
  pub deleted_at : Option ℕ

pub record Store : Type 0 where
  pub uploads : ℕ → Option Upload
  pub files : List FileRow
  pub objects : Text → Option Body

abbrev pub empty : Store
empty = record { uploads = λ id. none; files = []; objects = λ key. none }

-- A write to one id of the table `uploads`.
abbrev pub set_upload : ℕ → Option Upload → Store → Store
set_upload id row s = record s { uploads = λ j. if id == j then row else s.uploads j }

-- `StorageProvider::put`
abbrev pub put_object : Text → Body → Store → Store
put_object key body s = record s {
  objects = λ k. if bytes_eq key k then some body else s.objects k;
}

-- `StorageProvider::exists`
abbrev pub is_some {ℓ} : {A : Type ℓ} → Option A → Bool
is_some none = false
is_some (some a) = true

abbrev pub object_exists : Text → Store → Bool
object_exists key s = is_some (s.objects key)

abbrev pub owned : ℕ → Option Upload → Option Upload
owned user none = none
owned user (some u) = if u.user_id == user then some u else none

-- `SELECT … FROM uploads WHERE id = $1 AND user_id = $2`
abbrev pub find_upload : ℕ → ℕ → Store → Option Upload
find_upload id user s = owned user (s.uploads id)

-- The primary key of the table `files`.
abbrev pub has_file : ℕ → List FileRow → Bool
has_file id [] = false
has_file id (f ∷ fs) = if f.id == id then true else has_file id fs

abbrev pub is_active : Option ℕ → Bool
is_active none = true
is_active (some t) = false

-- `WHERE id = $1 AND user_id = $2 AND deleted_at IS NULL`
abbrev pub active_of : ℕ → ℕ → FileRow → Bool
active_of id user f = f.id == id && (f.user_id == user && is_active f.deleted_at)

-- The first row that passes: an id has one row at most.
abbrev pub find_file : (FileRow → Bool) → List FileRow → Option FileRow
find_file p [] = none
find_file p (f ∷ fs) = if p f then some f else find_file p fs

-- `UPDATE files SET … WHERE …`, and `rows_affected`
abbrev pub update_where : (FileRow → Bool) → (FileRow → FileRow) → List FileRow → List FileRow
update_where p g [] = []
update_where p g (f ∷ fs) = (if p f then g f else f) ∷ update_where p g fs

abbrev pub rows_affected : (FileRow → Bool) → List FileRow → ℕ
rows_affected p [] = 0
rows_affected p (f ∷ fs) = (if p f then 1 else 0) + rows_affected p fs

-- A row found after a write is the row written, or was there before at another id.
pub set_upload-cases :
    (a id : ℕ) (row : Option Upload) (s : Store) (u : Upload)
    → (set_upload a row s).uploads id ≡ some u
    → ((a ≡ id) × (row ≡ some u)) ⊎ ((a ≢ id) × (s.uploads id ≡ some u))
set_upload-cases a id row s u h = elim (Bool-cases (a == id)) [
  | inl e ↦ inl ((==_iff a id).0 e, rw e at h)
  | inr e ↦ inr (ground arith, rw e at h)
]

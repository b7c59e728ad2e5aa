-- ===== src/Server/Files/Download/Pages.antt =====
-- list_files of apps/server/src/api/files.rs, page by page.
use mathlib.Core.List.{Perm}
use Prim.Native.Nat.{min}
use native.Mathlib.Nat.{zero-add, suc-add}
use native.Mathlib.Numerals.{unary_clauses}
use free_box.Prelude.{
  ℕ, zero, suc, ◌+◌, ◌-◌, ◌*◌, ◌≤◌, ◌≡◌, refl, Option, none, some, List, [], ◌∷◌, ◌++◌, length,
  drop, map, take-append-drop, length-map, ◌∙◌, ap, length-take, length-drop, arith, sym, ltb,
  if◌then◌else◌, true,
}
use free_box.Prelude.Int.{ℤ, pos, negsuc}
use free_box.Outcome.{Result, ok, err}
use free_box.Server.Error.{AppError}
use free_box.Server.Files.State.{Store, FileRow, rows_affected}
use free_box.Server.Files.Download.{
  FileMetaResponse, FileListResponse, list_files, page_limit, page_offset, page, total_of,
  order_desc, meta_of, select, active_for,
}
use free_box.Server.Files.Download.Ties.{IsDistinct, order_desc_unique}
use free_box.Server.Files.Download.Order.{IsDescending, length-order_desc, length-select}

-- A page has room for 1 row at least and for 200 at most.
page_limit-bounds : (limit : Option ℤ) → (1 ≤ page_limit limit) × (page_limit limit ≤ 200)
unfolding page_limit
page_limit-bounds none = omega arith
page_limit-bounds (some (pos n)) = ground arith
page_limit-bounds (some (negsuc n)) = omega arith

length-page :
    (limit offset : ℕ) (rows : List FileRow)
    → length (page limit offset rows) ≡ min limit (length rows - offset)
length-page limit offset rows =
    rw (length-take limit (drop offset rows), length-drop offset rows) refl

total_of-cases :
    (shown : List FileRow) (count : ℕ)
    → total_of shown count ≡ (if ltb 0 (length shown) then count else 0)
total_of-cases [] count = refl
total_of-cases (f ∷ fs) count = ground arith

-- The total is read off the first row of the page.
total_of-page :
    (limit offset : ℕ) (rows : List FileRow)
    → 1 ≤ limit
    → total_of (page limit offset rows) (length rows)
      ≡ (if ltb offset (length rows) then length rows else 0)
total_of-page limit offset rows h =
    ground
      (arith, total_of-cases (page limit offset rows) (length rows), length-page limit offset rows)

abbrev pub active_count : ℕ → Store → ℕ
active_count user s = rows_affected (active_for user) s.files

-- The user's active files, the newest first.
abbrev newest : ℕ → Store → List FileRow
newest user s = order_desc (λ f. f.created_at) (select (active_for user) s.files)

newest-length : (user : ℕ) (s : Store) → length (newest user s) ≡ active_count user s
newest-length user s =
    length-order_desc (λ f. f.created_at) (select (active_for user) s.files)
    ∙ length-select (active_for user) s.files

-- If the query works, a listing succeeds for every pair of parameters and leaves the state as it was. Its limit is
-- between 1 and 200; it holds as many files as the limit and the offset leave of the user's active
-- files. The total counts all of them if the offset lies before their end, and is 0 otherwise.
pub list_files_lem :
    (user : ℕ) (limit offset : Option ℤ) (s : Store)
    → (r : FileListResponse) × (list_files (λ _. true) user limit offset s ≡ (ok r, s))
      × (1 ≤ r.limit)
      × (r.limit ≤ 200)
      × (length r.files ≡ min r.limit (active_count user s - r.offset))
      × (r.total ≡ (if ltb r.offset (active_count user s) then active_count user s else 0))
unfolding list_files
list_files_lem user limit offset s =
    let rows = newest user s in
    let shown = page (page_limit limit) (page_offset offset) rows in
    let bounds = page_limit-bounds limit in
    let size = newest-length user s in
    (
      _,
      refl,
      bounds.0,
      bounds.1,
      rw (length-map meta_of shown, length-page (page_limit limit) (page_offset offset) rows, size)
          refl,
      rw (total_of-page (page_limit limit) (page_offset offset) rows bounds.0, size) refl,
    )

-- What a client collects that asks for so many pages of one size, one after the other.
abbrev pub files_of : Result AppError FileListResponse × Store → List FileMetaResponse
files_of (ok r, s) = r.files
files_of (err e, s) = []

unfoldable pub walk : ℕ → ℕ → ℕ → ℕ → Store → List FileMetaResponse
walk user limit zero offset s = []
walk user limit (suc n) offset s =
    files_of (list_files (λ _. true) user (some (pos limit)) (some (pos offset)) s)
    ++ walk user limit n (offset + limit) s

drop-all {ℓ} : {A : Type ℓ} (n : ℕ) (xs : List A) → length xs ≤ n → drop n xs ≡ []
drop-all zero [] h = refl
drop-all zero (x ∷ xs) h = absurd (omega arith)
drop-all (suc n) [] h = refl
drop-all (suc n) (x ∷ xs) h = drop-all n xs (omega arith)

drop-drop {ℓ} : {A : Type ℓ} (m n : ℕ) (xs : List A) → drop n (drop m xs) ≡ drop (m + n) xs
drop-drop zero n xs = rw (zero-add n) refl
drop-drop (suc m) zero [] = simp unary_clauses refl
drop-drop (suc m) (suc n) [] = simp unary_clauses refl
drop-drop (suc m) n (x ∷ xs) = rw (suc-add m n) (drop-drop m n xs)

map-append {ℓ κ} :
    {A : Type ℓ} {B : Type κ} (f : A → B) (xs ys : List A) → map f (xs ++ ys) ≡ map f xs ++ map f ys
map-append f [] ys = refl
map-append f (x ∷ xs) ys = rw (map-append f xs ys) refl

module _ (user limit : ℕ) (s : Store) where
  one_page :
      (offset : ℕ)
      → 1 ≤ limit
      → limit ≤ 200
      → files_of (list_files (λ _. true) user (some (pos limit)) (some (pos offset)) s)
        ≡ map meta_of (page limit offset (newest user s))
  unfolding list_files page_limit page_offset
  one_page offset h k = ground arith

  walk_lem :
      (n offset : ℕ)
      → 1 ≤ limit
      → limit ≤ 200
      → active_count user s ≤ offset + n * limit
      → walk user limit n offset s ≡ map meta_of (drop offset (newest user s))
  unfolding walk
  walk_lem zero offset h k all =
      rw (drop-all offset (newest user s) (omega (arith, all, newest-length user s))) refl
  walk_lem (suc n) offset h k all =
      rw
        (
          one_page offset h k,
          walk_lem n (offset + limit) h k (omega (arith, all)),
          sym (drop-drop offset limit (newest user s)),
          sym (
              map-append meta_of (page limit offset (newest user s))
                (drop limit (drop offset (newest user s)))),
          take-append-drop limit (drop offset (newest user s)),
        )
        refl

  -- Take a table in which no two of the user's active files have one `created_at`, and any list that `ORDER BY
  -- created_at DESC` may give of those files: all of them, in an order in which none is followed by a
  -- newer one. A client that reads pages of one size from 1 to 200, enough of them for all of the files,
  -- and with the table unchanged meanwhile, collects just this list: each file once, the newest first.
  pub walk_collects :
      (n : ℕ) (ordered : List FileRow)
      → 1 ≤ limit
      → limit ≤ 200
      → active_count user s ≤ n * limit
      → IsDistinct (λ f. f.created_at) (select (active_for user) s.files)
      → Perm ordered (select (active_for user) s.files)
      → IsDescending (λ f. f.created_at) ordered
      → walk user limit n 0 s ≡ map meta_of ordered
  walk_collects n ordered h k all distinct perm sorted =
      let rows = select (active_for user) s.files in
      walk_lem n 0 h k (omega (arith, all))
      ∙ ap (map meta_of) (order_desc_unique (λ f. f.created_at) ordered rows distinct perm sorted)

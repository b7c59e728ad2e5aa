-- ===== src/Server/Files/Download/Order.antt =====
-- The order and the extent of a listing: the rows a query selects, by a column, newest first.
use mathlib.Core.List.{Perm}
use mathlib.Core.List.Perm
use free_box.Prelude.{
  ℕ, suc, ◌≤◌, ◌≡◌, refl, Bool, List, [], ◌∷◌, length, All, leb, Bool-cases, if_either, arith, inl,
  inr,
}
use free_box.Server.Files.State.{FileRow, rows_affected}
use free_box.Server.Files.Download.{select, insert_desc, order_desc}

-- No row is followed by one with a larger column.
abbrev pub IsDescending : {A : Type 0} → (A → ℕ) → List A → Type 0
IsDescending column [] = Unit
IsDescending column (f ∷ fs) = All (λ g. column g ≤ column f) fs × IsDescending column fs

module _ (column : FileRow → ℕ) where
  All-insert_desc :
      (top : ℕ) (f : FileRow) (gs : List FileRow)
      → column f ≤ top
      → All (λ g. column g ≤ top) gs
      → All (λ g. column g ≤ top) (insert_desc column f gs)
  unfolding insert_desc
  All-insert_desc top f [] h all = (h, tt)
  All-insert_desc top f (g ∷ gs) h all =
      if_either (All (λ r. column r ≤ top)) (leb (column g) (column f)) (f ∷ g ∷ gs)
        (g ∷ insert_desc column f gs) (λ e. (h, all))
        (λ e. (all.0, All-insert_desc top f gs h all.1))

  All-weaken :
      (low top : ℕ) (gs : List FileRow)
      → low ≤ top
      → All (λ g. column g ≤ low) gs
      → All (λ g. column g ≤ top) gs
  All-weaken low top [] h all = tt
  All-weaken low top (g ∷ gs) h all = (omega (arith, all.0), All-weaken low top gs h all.1)

  insert_desc-IsDescending :
      (f : FileRow) (gs : List FileRow)
      → IsDescending column gs
      → IsDescending column (insert_desc column f gs)
  unfolding insert_desc
  insert_desc-IsDescending f [] sorted = (tt, tt)
  insert_desc-IsDescending f (g ∷ gs) sorted = elim (Bool-cases (leb (column g) (column f))) [
    | inl e ↦
        rw e ((ground arith, All-weaken (column g) (column f) gs (ground arith) sorted.0), sorted)
    | inr e ↦ rw e (
      All-insert_desc (column g) f gs (ground arith) sorted.0,
      insert_desc-IsDescending f gs sorted.1,
    )
  ]

  pub order_desc-IsDescending : (fs : List FileRow) → IsDescending column (order_desc column fs)
  unfolding order_desc
  order_desc-IsDescending [] = tt
  order_desc-IsDescending (f ∷ fs) =
      insert_desc-IsDescending f (order_desc column fs) (order_desc-IsDescending fs)

  insert_desc-Perm : (f : FileRow) (gs : List FileRow) → Perm (insert_desc column f gs) (f ∷ gs)
  unfolding insert_desc
  insert_desc-Perm f [] = Perm.refl (f ∷ [])
  insert_desc-Perm f (g ∷ gs) = elim (Bool-cases (leb (column g) (column f))) [
    | inl e ↦ rw e (Perm.refl (f ∷ g ∷ gs))
    | inr e ↦ rw e (Perm.trans (Perm.cons g (insert_desc-Perm f gs)) (Perm.swap f g gs))
  ]

  pub order_desc-Perm : (fs : List FileRow) → Perm (order_desc column fs) fs
  unfolding order_desc
  order_desc-Perm [] = Perm.refl []
  order_desc-Perm (f ∷ fs) =
      Perm.trans (insert_desc-Perm f (order_desc column fs)) (Perm.cons f (order_desc-Perm fs))

  length-insert_desc :
      (f : FileRow) (gs : List FileRow) → length (insert_desc column f gs) ≡ suc (length gs)
  unfolding insert_desc
  length-insert_desc f [] = refl
  length-insert_desc f (g ∷ gs) = ground (arith, length-insert_desc f gs)

  pub length-order_desc : (fs : List FileRow) → length (order_desc column fs) ≡ length fs
  unfolding order_desc
  length-order_desc [] = refl
  length-order_desc (f ∷ fs) =
      omega (arith, length-insert_desc f (order_desc column fs), length-order_desc fs)

pub length-select :
    (p : FileRow → Bool) (fs : List FileRow) → length (select p fs) ≡ rows_affected p fs
length-select p [] = refl
length-select p (f ∷ fs) = ground (arith, length-select p fs)

-- ===== src/Server/Files/Download/Ties.antt =====
-- `ORDER BY` of apps/server/src/api/files.rs leaves the order of rows with equal columns open. Where no two
-- rows have one column, every order that it allows is that of `order_desc`.
use mathlib.Core.List.{Perm, Permᴰ, Mem, Memᴰ, mem-cons_self, mem-cons_of_mem}
use mathlib.Core.List.Perm
use mathlib.Core.List.Permᴰ
use mathlib.Core.Logic.{∥∥₁_elim}
use free_box.Prelude.{
  ℕ, ◌≢◌, ◌≡◌, ◌≤◌, refl, sym, ap, ◌∙◌, Bool-cases, inl, inr, List, [], ◌∷◌, All, leb, arith,
}
use free_box.Server.Files.State.{FileRow}
use free_box.Server.Files.Download.{insert_desc, order_desc}
use free_box.Server.Files.Download.Order.{IsDescending}

module _ (column : FileRow → ℕ) where
  -- No two rows have one column.
  abbrev pub IsDistinct : List FileRow → Type 0
  IsDistinct [] = Unit
  IsDistinct (f ∷ fs) = All (λ g. column g ≢ column f) fs × IsDistinct fs

  -- Two rows with one column are the same row.
  abbrev IsTieless : List FileRow → Type 0
  IsTieless rows = (f g : FileRow) → Mem f rows → Mem g rows → column f ≡ column g → f ≡ g

  All-Memᴰ :
      {f g : FileRow} {rows : List FileRow}
      → All (λ r. column r ≢ column f) rows
      → Memᴰ g rows
      → column g ≢ column f
  All-Memᴰ h (Memᴰ.head e) c = h.0 (ap column (sym e) ∙ c)
  All-Memᴰ h (Memᴰ.tail d) c = All-Memᴰ h.1 d c

  same_row :
      {f g : FileRow} {rows : List FileRow}
      → IsDistinct rows
      → Memᴰ f rows
      → Memᴰ g rows
      → column f ≡ column g
      → f ≡ g
  same_row h (Memᴰ.head e) (Memᴰ.head e') c = e ∙ sym e'
  same_row h (Memᴰ.head e) (Memᴰ.tail d) c = absurd (All-Memᴰ h.0 d (sym c ∙ ap column e))
  same_row h (Memᴰ.tail d) (Memᴰ.head e) c = absurd (All-Memᴰ h.0 d (c ∙ ap column e))
  same_row h (Memᴰ.tail d) (Memᴰ.tail d') c = same_row h.1 d d' c

  IsDistinct-IsTieless : (rows : List FileRow) → IsDistinct rows → IsTieless rows
  IsDistinct-IsTieless rows h f g in_f in_g c =
      let row_set : IsSet FileRow = hlevel in
      ∥∥₁_elim in_f (row_set f g) (λ d. ∥∥₁_elim in_g (row_set f g) (λ d'. same_row h d d' c))

  equal_comm :
      (f g : FileRow) (rows : List FileRow)
      → f ≡ g
      → insert_desc column f (insert_desc column g rows)
        ≡ insert_desc column g (insert_desc column f rows)
  equal_comm f g rows e =
      ap (λ x. insert_desc column x (insert_desc column g rows)) e
      ∙ ap (λ x. insert_desc column g (insert_desc column x rows)) (sym e)

  insert_desc_comm :
      (f g : FileRow) (rows : List FileRow)
      → (column f ≡ column g → f ≡ g)
      → insert_desc column f (insert_desc column g rows)
        ≡ insert_desc column g (insert_desc column f rows)
  unfolding insert_desc
  insert_desc_comm f g [] same = elim (Bool-cases (leb (column g) (column f))) [
    | inl e ↦ elim (Bool-cases (leb (column f) (column g))) [
      | inl d ↦ equal_comm f g [] (same (ground arith))
      | inr d ↦ rw (e, d) refl
    ]
    | inr e ↦ ground arith
  ]
  insert_desc_comm f g (r ∷ rows) same =
      let rest = insert_desc_comm f g rows same in
      elim (Bool-cases (leb (column g) (column f))) [
        | inl e ↦ elim (Bool-cases (leb (column f) (column g))) [
          | inl d ↦ equal_comm f g (r ∷ rows) (same (ground arith))
          | inr d ↦ ground (arith, rest)
        ]
        | inr e ↦ ground (arith, rest)
      ]

  order_desc-Permᴰ :
      {xs ys : List FileRow}
      → IsTieless xs
      → Permᴰ xs ys
      → order_desc column xs ≡ order_desc column ys
  unfolding order_desc
  order_desc-Permᴰ tieless Permᴰ.nil = refl
  order_desc-Permᴰ tieless (Permᴰ.cons {a = f} e d) =
      rw
        (
          e,
          order_desc-Permᴰ
              (λ a b in_a in_b. tieless a b (mem-cons_of_mem f in_a) (mem-cons_of_mem f in_b)) d,
        )
        refl
  order_desc-Permᴰ tieless (Permᴰ.swap {a = f} {b = g} {a' = h} {b' = k} {l = xs} e₁ e₂) =
      rw (e₁, e₂)
        (insert_desc_comm k h (order_desc column xs) (λ same.
          sym e₁
          ∙ tieless f g mem-cons_self (mem-cons_of_mem f mem-cons_self)
              (ap column e₁ ∙ same ∙ sym (ap column e₂))
          ∙ e₂))
  order_desc-Permᴰ tieless (Permᴰ.trans d₁ d₂) =
      let back = Permᴰ.symm d₁ in
      order_desc-Permᴰ tieless d₁
      ∙ order_desc-Permᴰ (λ a b in_a in_b. tieless a b (Permᴰ.mem back in_a) (Permᴰ.mem back in_b))
          d₂

  insert_desc-largest :
      (f : FileRow) (rows : List FileRow)
      → All (λ g. column g ≤ column f) rows
      → insert_desc column f rows ≡ f ∷ rows
  unfolding insert_desc
  insert_desc-largest f [] h = refl
  insert_desc-largest f (g ∷ rows) h = ground (arith, h.0)

  order_desc-sorted :
      (rows : List FileRow) → IsDescending column rows → order_desc column rows ≡ rows
  unfolding order_desc
  order_desc-sorted [] h = refl
  order_desc-sorted (f ∷ rows) h = rw (order_desc-sorted rows h.1) (insert_desc-largest f rows h.0)

  pub order_desc_unique :
      (ordered rows : List FileRow)
      → IsDistinct rows
      → Perm ordered rows
      → IsDescending column ordered
      → order_desc column rows ≡ ordered
  order_desc_unique ordered rows distinct perm sorted =
      let rows_set : IsSet (List FileRow) = hlevel in
      ∥∥₁_elim (Perm.symm perm) (rows_set (order_desc column rows) ordered) (λ d.
        order_desc-Permᴰ (IsDistinct-IsTieless rows distinct) d ∙ order_desc-sorted ordered sorted)

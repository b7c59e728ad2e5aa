-- ===== src/Server/Datasources/Names.antt =====
-- Sorting and deduplication of names in apps/server/src/api/storage.rs.
use free_box.Prelude.{
  ◌≡◌, refl, sym, ap, ◌∙◌, Bool, true, false, not, ◌&&◌, ◌||◌, List, [], ◌∷◌, bytes_eq,
  bytes_eq_sound, Bool-cases, inl, inr, if_either, arith,
}
use free_box.Server.Files.Keys.{Text}
use free_box.Server.Datasources.{text_lt, insert_name, sort_names, dedup}

abbrev pub is_among : Text → List Text → Bool
is_among name [] = false
is_among name (x ∷ xs) = bytes_eq x name || is_among name xs

-- Each name is before the next one.
abbrev pub is_ascending : List Text → Bool
is_ascending [] = true
is_ascending (x ∷ []) = true
is_ascending (x ∷ y ∷ ys) = text_lt x y && is_ascending (y ∷ ys)

-- No name is after the next one.
abbrev is_sorted : List Text → Bool
is_sorted [] = true
is_sorted (x ∷ []) = true
is_sorted (x ∷ y ∷ ys) = not (text_lt y x) && is_sorted (y ∷ ys)

-- One of two different texts is before the other, and not both.
text_lt_asym : (xs ys : Text) → text_lt xs ys ≡ true → text_lt ys xs ≡ false
unfolding text_lt
text_lt_asym xs [] h = cc h
text_lt_asym [] (y ∷ ys) h = refl
text_lt_asym (x ∷ xs) (y ∷ ys) h = ground (arith, text_lt_asym xs ys)

text_lt_total :
    (xs ys : Text) → bytes_eq xs ys ≡ false → text_lt ys xs ≡ false → text_lt xs ys ≡ true
unfolding text_lt bytes_eq
text_lt_total [] [] d h = cc d
text_lt_total [] (y ∷ ys) d h = refl
text_lt_total (x ∷ xs) [] d h = cc h
text_lt_total (x ∷ xs) (y ∷ ys) d h = ground (arith, text_lt_total xs ys)

insert_name-is_sorted :
    (x : Text) (ys : List Text) → is_sorted ys ≡ true → is_sorted (insert_name x ys) ≡ true
unfolding insert_name
insert_name-is_sorted x [] h = refl
insert_name-is_sorted x (y ∷ []) h = ground (arith, text_lt_asym y x)
insert_name-is_sorted x (y ∷ z ∷ zs) h =
    ground (arith, text_lt_asym y x, text_lt_asym z x, insert_name-is_sorted x (z ∷ zs))

sort_names-is_sorted : (xs : List Text) → is_sorted (sort_names xs) ≡ true
unfolding sort_names
sort_names-is_sorted [] = refl
sort_names-is_sorted (x ∷ xs) = insert_name-is_sorted x (sort_names xs) (sort_names-is_sorted xs)

-- The first name stays.
dedup-first : (y : Text) (ys : List Text) → (zs : List Text) × (dedup (y ∷ ys) ≡ y ∷ zs)
unfolding dedup
dedup-first y [] = ([], refl)
dedup-first y (z ∷ zs) = elim (Bool-cases (bytes_eq y z)) [
  | inl e ↦
      let (rest, h) = dedup-first z zs in
      (rest, rw e (h ∙ ap (λ t. t ∷ rest) (sym (bytes_eq_sound y z e))))
  | inr e ↦ (dedup (z ∷ zs), rw e refl)
]

dedup-is_ascending : (xs : List Text) → is_sorted xs ≡ true → is_ascending (dedup xs) ≡ true
unfolding dedup
dedup-is_ascending [] h = refl
dedup-is_ascending (x ∷ []) h = refl
dedup-is_ascending (x ∷ y ∷ ys) h =
    let later = dedup-is_ascending (y ∷ ys) (ground arith) in
    if_either (λ zs. is_ascending zs ≡ true) (bytes_eq x y) _ _ (λ e. later)
      (λ e.
        let (rest, first) = dedup-first y ys in
        let before : text_lt x y ≡ true = text_lt_total x y e (ground arith) in
        let ascends : is_ascending (y ∷ rest) ≡ true = ap is_ascending (sym first) ∙ later in
        rw first (rw before ascends))

is_among-insert_name :
    (name x : Text) (ys : List Text) → is_among name (insert_name x ys) ≡ is_among name (x ∷ ys)
unfolding insert_name
is_among-insert_name name x [] = refl
is_among-insert_name name x (y ∷ ys) = ground (arith, is_among-insert_name name x ys)

is_among-sort_names :
    (name : Text) (xs : List Text) → is_among name (sort_names xs) ≡ is_among name xs
unfolding sort_names
is_among-sort_names name [] = refl
is_among-sort_names name (x ∷ xs) =
    is_among-insert_name name x (sort_names xs)
    ∙ ap (λ b. bytes_eq x name || b) (is_among-sort_names name xs)

is_among-dedup : (name : Text) (xs : List Text) → is_among name (dedup xs) ≡ is_among name xs
unfolding dedup
is_among-dedup name [] = refl
is_among-dedup name (x ∷ []) = refl
is_among-dedup name (x ∷ y ∷ ys) =
    let later = is_among-dedup name (y ∷ ys) in
    if_either (λ zs. is_among name zs ≡ is_among name (x ∷ y ∷ ys)) (bytes_eq x y) _ _
      (λ e. let same = bytes_eq_sound x y e in rw (same, later) (ground arith))
      (λ e. ap (λ b. bytes_eq x name || b) later)

-- Sorted names without duplicates are in order, and are the same names.
pub dedup-sort_names :
    (xs : List Text)
    → (is_ascending (dedup (sort_names xs)) ≡ true)
      × ((name : Text) → is_among name (dedup (sort_names xs)) ≡ is_among name xs)
dedup-sort_names xs = (
  dedup-is_ascending (sort_names xs) (sort_names-is_sorted xs),
  λ name. is_among-dedup name (sort_names xs) ∙ is_among-sort_names name xs,
)

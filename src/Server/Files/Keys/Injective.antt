-- ===== src/Server/Files/Keys/Injective.antt =====
-- `chunk_storage_key` of apps/server/src/api/files.rs gives every chunk of every file its own key.
use free_box.Prelude.{ℕ, ◌+◌, ◌<◌, ◌≡◌, refl, ap, sym, ◌∙◌, [], ◌∷◌, ◌++◌, length, map, drop, arith}
use free_box.Prelude.Digits.{digits_be, value_from, value-decimals}
use free_box.Server.Files.Keys.{Text, UuidText, chunk_storage_key, pad8, width08, u32_limit}

pub append-injective :
    (xs ys us vs : Text) → length xs ≡ length ys → xs ++ us ≡ ys ++ vs → (xs ≡ ys) × (us ≡ vs)
append-injective [] [] us vs n h = (refl, h)
append-injective [] (y ∷ ys) us vs n h = absurd (omega arith)
append-injective (x ∷ xs) [] us vs n h = absurd (omega arith)
append-injective (x ∷ xs) (y ∷ ys) us vs n h =
    let (e, f) = append-injective xs ys us vs (omega arith) (cc h) in (cc (e, h), f)

map-shift_injective : (xs ys : Text) → map (λ d. d + 48) xs ≡ map (λ d. d + 48) ys → xs ≡ ys
map-shift_injective [] [] h = refl
map-shift_injective [] (y ∷ ys) h = cc h
map-shift_injective (x ∷ xs) [] h = cc h
map-shift_injective (x ∷ xs) (y ∷ ys) h =
    let e : x + 48 ≡ y + 48 = cc h in
    let same : x ≡ y = omega arith in cc (same, map-shift_injective xs ys (cc h))

value-width08 : (n : ℕ) → n < u32_limit → value_from 10 0 (digits_be 10 (width08 n) n) ≡ n
value-width08 n h = ground (arith, value-decimals 8 n, value-decimals 9 n, value-decimals 10 n)

pub pad8-injective : (i j : ℕ) → i < u32_limit → j < u32_limit → pad8 i ≡ pad8 j → i ≡ j
unfolding pad8
pad8-injective i j hi hj e =
    sym (value-width08 i hi) ∙ ap (value_from 10 0) (map-shift_injective _ _ e) ∙ value-width08 j hj

module _ (uuid : UuidText) where
  -- Two chunks with one storage key are the same chunk of the same file.
  pub chunk_storage_key-injective :
      (a b i j : ℕ)
      → i < u32_limit
      → j < u32_limit
      → chunk_storage_key uuid a i ≡ chunk_storage_key uuid b j
      → (a ≡ b) × (i ≡ j)
  unfolding chunk_storage_key
  chunk_storage_key-injective a b i j hi hj h =
      let (same, rest) =
        append-injective (uuid.text a) (uuid.text b) (47 ∷ pad8 i) (47 ∷ pad8 j)
          (omega (arith, uuid.length-text a, uuid.length-text b)) (ap (drop 7) h) in
      (uuid.text_injective a b same, pad8-injective i j hi hj (ap (drop 1) rest))

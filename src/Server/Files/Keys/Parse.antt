-- ===== src/Server/Files/Keys/Parse.antt =====
-- `parse_chunk_index` of apps/server/src/api/files.rs reads back the decimal index that a client sends.
use free_box.Prelude.{
  ℕ, zero, suc, ◌+◌, ◌-◌, ◌*◌, ◌/◌, ◌%◌, ◌^◌, ◌<◌, ◌≡◌, refl, ap, ◌∙◌, true, none, some, List, [],
  ◌∷◌, ◌++◌, length, map, all, All, ltb, ◌==◌, Bool-cases, inl, inr, ==_iff, arith, if◌then◌else◌,
}
use free_box.Prelude.Digits.{digits_be, value_from, value-decimals, length-digits_be}
use free_box.Outcome.{ok}
use free_box.Server.Files.Keys.{
  Text, u32_limit, is_visible, parse_digits, parse_u32, parse_chunk_index, drop_zeros, to_string,
}

abbrev pub ascii_digits : List ℕ → Text
ascii_digits ds = map (λ d. d + 48) ds

All-concat :
    (ds : List ℕ) (d : ℕ) → All (λ e. e < 10) ds → d < 10 → All (λ e. e < 10) (ds ++ d ∷ [])
All-concat [] d h lt = (lt, tt)
All-concat (e ∷ ds) d h lt = (h.0, All-concat ds d h.1 lt)

All-digits_be : (width n : ℕ) → All (λ d. d < 10) (digits_be 10 width n)
unfolding digits_be
All-digits_be zero n = tt
All-digits_be (suc width) n =
    All-concat (digits_be 10 width (n / 10)) (n % 10) (All-digits_be width (n / 10)) (omega arith)

parse_digits-ascii :
    (acc : ℕ) (ds : List ℕ)
    → All (λ d. d < 10) ds
    → parse_digits acc (ascii_digits ds)
      ≡ (if ltb (value_from 10 acc ds) u32_limit then some (value_from 10 acc ds) else none)
unfolding parse_digits value_from
parse_digits-ascii acc [] h = refl
parse_digits-ascii acc (d ∷ ds) h =
    let back : d + 48 - 48 ≡ d = omega arith in
    ground (arith, back, parse_digits-ascii (acc * 10 + d) ds h.1)

all-visible : (ds : List ℕ) → All (λ d. d < 10) ds → all is_visible (ascii_digits ds) ≡ true
all-visible [] h = refl
all-visible (d ∷ ds) h = ground (arith, all-visible ds h.1)

parse_u32-ascii :
    (ds : List ℕ)
    → 0 < length ds
    → All (λ d. d < 10) ds
    → parse_u32 (ascii_digits ds) ≡ parse_digits 0 (ascii_digits ds)
unfolding parse_u32
parse_u32-ascii [] n h = elim n [ ]
parse_u32-ascii (d ∷ []) n h = ground arith
parse_u32-ascii (d ∷ e ∷ ds) n h = ground arith

-- The decimal digits of a `u32`, at any width that holds it and with leading zeros, are read back as
-- the number.
pub parse_chunk_index-decimal :
    (width n : ℕ)
    → n < 10 ^ suc width
    → n < u32_limit
    → parse_chunk_index (some (ascii_digits (digits_be 10 (suc width) n))) ≡ ok n
unfolding parse_chunk_index
parse_chunk_index-decimal width n fits small =
    let ds = digits_be 10 (suc width) n in
    let digits = All-digits_be (suc width) n in
    let long : 0 < length ds = omega (arith, length-digits_be 10 (suc width) n) in
    let value = value-decimals (suc width) n fits in
    ground (
      arith,
      all-visible ds digits,
      parse_u32-ascii ds long digits,
      parse_digits-ascii 0 ds digits,
      value,
    )

drop_zeros_lem :
    (ds : List ℕ)
    → 0 < length ds
    → All (λ d. d < 10) ds
    → All (λ d. d < 10) (drop_zeros ds)
      × (0 < length (drop_zeros ds))
      × (value_from 10 0 (drop_zeros ds) ≡ value_from 10 0 ds)
unfolding value_from
drop_zeros_lem [] n h = elim n [ ]
drop_zeros_lem (d ∷ []) n h = (h, omega arith, refl)
drop_zeros_lem (d ∷ e ∷ ds) n h =
    let (digits, long, value) = drop_zeros_lem (e ∷ ds) (omega arith) h.1 in
    elim (Bool-cases (d == 0)) [
      | inl z ↦
          let nothing : 0 ≡ 0 + d = omega (arith, (==_iff d 0).0 z) in
          rw z (digits, long, value ∙ ap (λ k. value_from 10 (k * 10 + e) ds) nothing)
      | inr z ↦ rw z (h, omega arith, refl)
    ]

-- The index that a client writes is the index that the server reads.
pub parse_chunk_index-to_string :
    (n : ℕ) → n < u32_limit → parse_chunk_index (some (to_string n)) ≡ ok n
unfolding parse_chunk_index to_string
parse_chunk_index-to_string n small =
    let all_digits = digits_be 10 20 n in
    let (digits, long, same) =
      drop_zeros_lem all_digits (omega (arith, length-digits_be 10 20 n)) (All-digits_be 20 n) in
    let value = value-decimals 20 n (omega arith) in
    ground (
      arith,
      all-visible (drop_zeros all_digits) digits,
      parse_u32-ascii (drop_zeros all_digits) long digits,
      parse_digits-ascii 0 (drop_zeros all_digits) digits,
      same,
      value,
    )

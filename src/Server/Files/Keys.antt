-- ===== src/Server/Files/Keys.antt =====
-- apps/server/src/api/files.rs: chunk indices and storage keys. Texts are lists of code points.
pub mod Injective
pub mod Parse
use Prim.Native.Char.{code}
use Prim.Native.String
use Prim.Native.String.{String}
use free_box.Prelude.{
  ℕ, zero, suc, ◌+◌, ◌-◌, ◌*◌, ◌<◌, ◌≡◌, refl, Bool, true, false, not, ◌&&◌, ◌||◌, Option, none,
  some, List, [], ◌∷◌, ◌++◌, length, map, all, leb, ltb, ◌==◌, if◌then◌else◌,
}
use free_box.Prelude.Digits.{digits_be}
use free_box.Outcome.{Result, ok, err, reject_if, ok_or, ◌>>=◌, ◌>>◌}
use free_box.Server.Error.{AppError, bad_request, payload_too_large}

abbrev pub Text : Type 0
Text = List ℕ

abbrev pub codes : String → Text
codes String.[] = []
codes (String.◌∷◌ c s) = code c ∷ codes s

-- The `uuid` crate's hyphenated form: 36 characters, a different text for each id.
pub record UuidText : Type 0 where
  pub text : ℕ → Text
  pub length-text : (id : ℕ) → length (text id) ≡ 36
  pub text_injective : (a b : ℕ) → text a ≡ text b → a ≡ b

abbrev pub max_upload_chunk_body_bytes : ℕ
max_upload_chunk_body_bytes = 32 * 1024 * 1024

abbrev pub u32_limit : ℕ
u32_limit = 4294967296

abbrev pub is_digit : ℕ → Bool
is_digit c = leb 48 c && leb c 57

-- `HeaderValue::to_str`: visible ASCII, spaces and tabs
abbrev pub is_visible : ℕ → Bool
is_visible c = (leb 32 c && ltb c 127) || c == 9

-- The digits of `str::parse::<u32>`, overflow refused.
unfoldable pub parse_digits : ℕ → Text → Option ℕ
parse_digits n [] = if ltb n u32_limit then some n else none
parse_digits n (c ∷ cs) =
    let rest = parse_digits (n * 10 + (c - 48)) cs in if is_digit c then rest else none

-- `str::parse::<u32>`: an optional plus sign, then at least one digit.
unfoldable pub parse_u32 : Text → Option ℕ
unfolding parse_digits
parse_u32 [] = none
parse_u32 (c ∷ []) = if c == b'+' then none else parse_digits 0 (c ∷ [])
parse_u32 (c ∷ d ∷ cs) = if c == b'+' then parse_digits 0 (d ∷ cs) else parse_digits 0 (c ∷ d ∷ cs)

-- `parse_chunk_index`: the `X-Chunk-Index` header, if there is one
unfoldable pub parse_chunk_index : Option Text → Result AppError ℕ
unfolding parse_u32
parse_chunk_index header = do
  raw ← ok_or header bad_request
  reject_if (not (all is_visible raw)) bad_request
  ok_or (parse_u32 raw) bad_request

-- The number of digits of `{:08}` at a `u32`.
abbrev pub width08 : ℕ → ℕ
width08 n = if ltb n 100000000 then 8 else if ltb n 1000000000 then 9 else 10

-- `{:08}`
unfoldable pub pad8 : ℕ → Text
pad8 n = map (λ d. d + 48) (digits_be 10 (width08 n) n)

-- `to_string` of a number that 64 bits hold
abbrev pub drop_zeros : List ℕ → List ℕ
drop_zeros [] = []
drop_zeros (d ∷ []) = d ∷ []
drop_zeros (d ∷ e ∷ ds) = let rest = drop_zeros (e ∷ ds) in if d == 0 then rest else d ∷ e ∷ ds

unfoldable pub to_string : ℕ → Text
to_string n = map (λ d. d + 48) (drop_zeros (digits_be 10 20 n))

module _ (uuid : UuidText) where
  -- `format!("chunks/{file_id}/{chunk_index:08}")`
  unfoldable pub chunk_storage_key : ℕ → ℕ → Text
  unfolding pad8
  chunk_storage_key file_id chunk_index =
      codes "chunks/" ++ uuid.text file_id ++ b'/' ∷ pad8 chunk_index

unfoldable pub validate_chunk_body_size : ℕ → Result AppError (Unit {0})
validate_chunk_body_size size = reject_if (ltb max_upload_chunk_body_bytes size) payload_too_large

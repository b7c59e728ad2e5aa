-- ===== src/Texts.antt =====
-- Operations of Rust's standard library on texts, which several parts of the program use: `str::find`,
-- `str::contains`, `str::trim_end_matches` with a slash, `str::to_ascii_lowercase` and `str::trim`.
pub mod Find
pub mod Trim
use free_box.Prelude.{
  ℕ, zero, suc, ◌+◌, Bool, true, false, ◌&&◌, Option, none, some, List, [], ◌∷◌, map, leb, ◌==◌,
  if◌then◌else◌,
}
use free_box.Server.Files.Keys.{Text}

-- `trim_end_matches('/')`, and the other tests of `remote_name`
abbrev pub all_slashes : Text → Bool
all_slashes [] = true
all_slashes (c ∷ cs) = let rest = all_slashes cs in if c == b'/' then rest else false

unfoldable pub trim_end_slashes : Text → Text
trim_end_slashes [] = []
trim_end_slashes (c ∷ cs) =
    let rest = trim_end_slashes cs in if all_slashes (c ∷ cs) then [] else c ∷ rest

abbrev pub is_empty : Text → Bool
is_empty [] = true
is_empty (c ∷ cs) = false

abbrev pub starts_with : Text → Text → Bool
starts_with [] text = true
starts_with (c ∷ cs) [] = false
starts_with (c ∷ cs) (d ∷ ds) = c == d && starts_with cs ds

abbrev pub one_later : Option ℕ → Option ℕ
one_later none = none
one_later (some i) = some (suc i)

-- `str::find`: where the text first has the pattern
unfoldable pub find : Text → Text → Option ℕ
find pattern [] = if is_empty pattern then some 0 else none
find pattern (c ∷ cs) =
    let rest = find pattern cs in if starts_with pattern (c ∷ cs) then some 0 else one_later rest

abbrev pub is_found : Option ℕ → Bool
is_found none = false
is_found (some i) = true

unfoldable pub contains : Text → Text → Bool
unfolding find
contains pattern text = is_found (find pattern text)

unfoldable pub to_ascii_lowercase : Text → Text
to_ascii_lowercase text = map (λ c. if leb 65 c && leb c 90 then c + 32 else c) text

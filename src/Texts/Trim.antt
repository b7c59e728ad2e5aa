-- ===== src/Texts/Trim.antt =====
-- `str::trim`: white space, in UTF-8, is taken off both ends.
use free_box.Prelude.{
  ℕ, zero, suc, ◌-◌, ◌≡◌, refl, Bool, ◌&&◌, ◌||◌, [], ◌∷◌, leb, ◌==◌, if◌then◌else◌,
}
use free_box.Server.Files.Keys.{Text, codes}

-- `char::is_whitespace` in UTF-8: how many bytes of white space a text begins with, one character at most
abbrev is_space_3 : ℕ → ℕ → ℕ → Bool
is_space_3 a b c =
    (a == 225 && (b == 154 && c == 128))
    || ((a == 226
          && (b == 128 && ((leb 128 c && leb c 138) || (c == 168 || (c == 169 || c == 175)))))
        || ((a == 226 && (b == 129 && c == 159)) || (a == 227 && (b == 128 && c == 128))))

abbrev is_space_2 : ℕ → ℕ → Bool
is_space_2 a b = a == 194 && (b == 133 || b == 160)

abbrev is_space_1 : ℕ → Bool
is_space_1 a = (leb 9 a && leb a 13) || a == 32

abbrev pub space_ahead : Text → ℕ
space_ahead [] = 0
space_ahead (a ∷ []) = if is_space_1 a then 1 else 0
space_ahead (a ∷ b ∷ []) = if is_space_1 a then 1 else if is_space_2 a b then 2 else 0
space_ahead (a ∷ b ∷ c ∷ cs) =
    if is_space_1 a then 1 else if is_space_2 a b then 2 else if is_space_3 a b c then 3 else 0

-- the same for a reversed text
abbrev pub space_behind : Text → ℕ
space_behind [] = 0
space_behind (a ∷ []) = if is_space_1 a then 1 else 0
space_behind (b ∷ a ∷ []) = if is_space_1 b then 1 else if is_space_2 a b then 2 else 0
space_behind (c ∷ b ∷ a ∷ front) =
    if is_space_1 c then 1 else if is_space_2 b c then 2 else if is_space_3 a b c then 3 else 0

-- Skips the bytes that are known to be white space, and then looks for more.
abbrev pub skip : (Text → ℕ) → ℕ → Text → Text
skip width n [] = []
skip width zero (c ∷ cs) =
    let rest = skip width (width (c ∷ cs) - 1) cs in if width (c ∷ cs) == 0 then c ∷ cs else rest
skip width (suc n) (c ∷ cs) = skip width n cs

abbrev pub reverse_onto : Text → Text → Text
reverse_onto [] done = done
reverse_onto (c ∷ cs) done = reverse_onto cs (c ∷ done)

unfoldable pub trim : Text → Text
trim text = reverse_onto (skip space_behind 0 (reverse_onto (skip space_ahead 0 text) [])) []

trim_both_ends : trim (codes " a b ") ≡ codes "a b"
unfolding trim
trim_both_ends = refl

-- ===== src/Texts/Find.antt =====
-- Where `str::find` finds a pattern, segment by segment.
use free_box.Prelude.{
  ℕ, ◌≡◌, refl, Bool, true, not, Option, none, some, [], ◌∷◌, ◌++◌, all, ap, append_assoc, length,
  take, drop, arith, ◌==◌,
}
use free_box.Server.Files.Keys.{Text}
use free_box.Texts.{find, starts_with, one_later}

-- The place after a segment.
abbrev pub advance : Text → Option ℕ → Option ℕ
advance [] o = o
advance (c ∷ cs) o = one_later (advance cs o)

pub advance-length : (xs : Text) → advance xs (some 0) ≡ some (length xs)
advance-length [] = refl
advance-length (x ∷ xs) = rw (advance-length xs) refl

pub advance-none : (xs : Text) → advance xs none ≡ none
advance-none [] = refl
advance-none (x ∷ xs) = rw (advance-none xs) refl

-- The pattern does not begin in the segment, whatever comes after it.
abbrev pub Skips : Text → Text → Type 0
Skips pattern xs = (rest : Text) → find pattern (xs ++ rest) ≡ advance xs (find pattern rest)

advance-append : (xs ys : Text) (o : Option ℕ) → advance (xs ++ ys) o ≡ advance xs (advance ys o)
advance-append [] ys o = refl
advance-append (x ∷ xs) ys o = rw (advance-append xs ys o) refl

pub Skips-append :
    (pattern xs ys : Text) → Skips pattern xs → Skips pattern ys → Skips pattern (xs ++ ys)
Skips-append pattern xs ys p q rest =
    rw (append_assoc xs ys rest, p (ys ++ rest), q rest, advance-append xs ys (find pattern rest))
      refl

abbrev pub lacks : ℕ → Text → Bool
lacks c text = all (λ d. not (c == d)) text

-- A segment without the pattern's first character.
pub lacks-Skips : (c : ℕ) (pattern xs : Text) → lacks c xs ≡ true → Skips (c ∷ pattern) xs
unfolding find
lacks-Skips c pattern [] h rest = refl
lacks-Skips c pattern (x ∷ xs) h rest =
    let before = lacks-Skips c pattern xs (ground arith) rest in rw before (ground arith)

pub starts_with-append : (xs rest : Text) → starts_with xs (xs ++ rest) ≡ true
starts_with-append [] rest = refl
starts_with-append (x ∷ xs) rest = ground (arith, starts_with-append xs rest)

-- A pattern is found where it stands.
pub find-append : (c : ℕ) (pattern rest : Text) → find (c ∷ pattern) (c ∷ pattern ++ rest) ≡ some 0
unfolding find
find-append c pattern rest = rw (starts_with-append (c ∷ pattern) rest) refl

pub take-length_append : (xs ys : Text) → take (length xs) (xs ++ ys) ≡ xs
take-length_append [] ys = refl
take-length_append (x ∷ xs) ys = ap (λ zs. x ∷ zs) (take-length_append xs ys)

pub drop-length_append : (xs ys : Text) → drop (length xs) (xs ++ ys) ≡ ys
drop-length_append [] ys = refl
drop-length_append (x ∷ xs) ys = drop-length_append xs ys

-- ===== src/Crypto/Encryption/Chunks.antt =====
-- How `chunks` of packages/crypto/src/encryption.rs splits a file.
use free_box.Prelude.{
  ℕ, zero, suc, ◌≤◌, ◌<◌, ◌≡◌, refl, ap, ◌∙◌, List, [], ◌∷◌, ◌++◌, length, take, drop, All,
  take-append-drop, length-take, length-drop, arith,
}
use free_box.Crypto.Encryption.{chunks_within, chunks}

module _ {ℓ} {A : Type ℓ} where
  unfoldable pub concat : List (List A) → List A
  concat [] = []
  concat (xs ∷ xss) = xs ++ concat xss

  -- No element is lost: the rounds given are enough.
  pub concat-chunks_within :
      (rounds size : ℕ) (xs : List A)
      → 0 < size
      → length xs ≤ rounds
      → concat (chunks_within rounds size xs) ≡ xs
  unfolding concat chunks_within
  concat-chunks_within zero size [] pos h = refl
  concat-chunks_within zero size (x ∷ xs) pos h = absurd (omega arith)
  concat-chunks_within (suc rounds) size [] pos h = refl
  concat-chunks_within (suc rounds) size (x ∷ xs) pos h =
      ap (λ r. take size (x ∷ xs) ++ r)
        (concat-chunks_within rounds size (drop size (x ∷ xs)) pos
          (omega (arith, length-drop size (x ∷ xs))))
      ∙ take-append-drop size (x ∷ xs)

  pub concat-chunks : (size : ℕ) (xs : List A) → 0 < size → concat (chunks size xs) ≡ xs
  unfolding chunks
  concat-chunks size xs pos = concat-chunks_within (length xs) size xs pos (omega arith)

  pub All-chunks_within :
      (rounds size : ℕ) (xs : List A) → All (λ c. length c ≤ size) (chunks_within rounds size xs)
  unfolding chunks_within
  All-chunks_within zero size xs = tt
  All-chunks_within (suc rounds) size [] = tt
  All-chunks_within (suc rounds) size (x ∷ xs) =
      (omega (arith, length-take size (x ∷ xs)), All-chunks_within rounds size (drop size (x ∷ xs)))

  pub All-chunks : (size : ℕ) (xs : List A) → All (λ c. length c ≤ size) (chunks size xs)
  unfolding chunks
  All-chunks size xs = All-chunks_within (length xs) size xs

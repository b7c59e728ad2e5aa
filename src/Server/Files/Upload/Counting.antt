-- ===== src/Server/Files/Upload/Counting.antt =====
-- How many of the first chunks of an upload the storage of apps/server/src/api/files.rs holds.
use free_box.Prelude.{
  ℕ, zero, suc, ◌+◌, ◌≤◌, ◌<◌, ◌≡◌, ◌≢◌, inl, inr, refl, ap, sym, subst, Bool, true, false, arith,
  if◌then◌else◌, Bool-cases, bytes_eq, bytes_eq-ne, bytes_eq_refl, bytes_eq_sound, ◌==◌, ==_iff,
}
use free_box.Server.Files.Keys.{Text, UuidText, u32_limit, chunk_storage_key}
use free_box.Server.Files.Keys.Injective.{chunk_storage_key-injective}
use free_box.Server.Files.State.{Body, Store, object_exists, put_object, is_some}

-- How many `i < n` pass.
unfoldable pub count_below : (ℕ → Bool) → ℕ → ℕ
count_below p zero = 0
count_below p (suc n) = count_below p n + (if p n then 1 else 0)

pub count_below-le : (p : ℕ → Bool) (n : ℕ) → count_below p n ≤ n
unfolding count_below
count_below-le p zero = omega arith
count_below-le p (suc n) = ground (arith, count_below-le p n)

-- If all are counted, each one passes.
pub count_below-all : (p : ℕ → Bool) (n i : ℕ) → n ≤ count_below p n → i < n → p i ≡ true
unfolding count_below
count_below-all p zero i full h = absurd (omega arith)
count_below-all p (suc n) i full h = elim (Bool-cases (i == n)) [
  | inl e ↦ rw ((==_iff i n).0 e) (ground (arith, count_below-le p n))
  | inr e ↦ ground (arith, count_below-le p n, count_below-all p n i)
]

pub count_below-same :
    (p q : ℕ → Bool) (n : ℕ) → ((i : ℕ) → i < n → p i ≡ q i) → count_below p n ≡ count_below q n
unfolding count_below
count_below-same p q zero same = refl
count_below-same p q (suc n) same =
    let before = count_below-same p q n (λ i h. same i (omega arith)) in
    ground (arith, before, same n (omega arith))

-- One more passes.
pub count_below-more :
    (p q : ℕ → Bool) (n k : ℕ)
    → k < n
    → p k ≡ false
    → q k ≡ true
    → ((i : ℕ) → i < n → i ≢ k → p i ≡ q i)
    → count_below q n ≡ count_below p n + 1
unfolding count_below
count_below-more p q zero k h old new same = absurd (omega arith)
count_below-more p q (suc n) k h old new same = elim (Bool-cases (k == n)) [
  | inl e ↦
      let last : k ≡ n = (==_iff k n).0 e in
      let before = count_below-same p q n (λ i l. same i (omega arith) (omega arith)) in
      ground (arith, before, last)
  | inr e ↦
      let before =
        count_below-more p q n k (ground arith) old new (λ i l ne. same i (omega arith) ne) in
      ground (arith, before, same n (omega arith) (ground arith))
]

-- Writing to a key that holds an object changes no answer of `exists`.
pub object_exists-put_old :
    (s : Store) (key other : Text) (body : Body)
    → object_exists key s ≡ true
    → object_exists other (put_object key body s) ≡ object_exists other s
object_exists-put_old s key other body old = elim (Bool-cases (bytes_eq key other)) [
  | inl e ↦ rw e (sym (subst (λ k. object_exists k s ≡ true) (bytes_eq_sound key other e) old))
  | inr e ↦ rw e refl
]

pub count_below_mono :
    (p q : ℕ → Bool) (n : ℕ)
    → ((i : ℕ) → p i ≡ true → q i ≡ true)
    → count_below p n ≤ count_below q n
unfolding count_below
count_below_mono p q zero h = omega arith
count_below_mono p q (suc n) h = ground (arith, count_below_mono p q n h, h n)

-- A write takes no object away.
pub object_exists-put :
    (s : Store) (key other : Text) (body : Body)
    → object_exists other s ≡ true
    → object_exists other (put_object key body s) ≡ true
object_exists-put s key other body h = ground arith

module _ (uuid : UuidText) where
  -- chunks of upload `id` that are stored, among the first `n`
  abbrev pub stored_chunks : Store → ℕ → ℕ → ℕ
  stored_chunks s id n = count_below (λ i. object_exists (chunk_storage_key uuid id i) s) n

  -- A write shows at its own key.
  pub object_exists-put_self :
      (id i : ℕ) (body : Body) (s : Store)
      → object_exists
          (chunk_storage_key uuid id i)
          (put_object (chunk_storage_key uuid id i) body s)
        ≡ true
  object_exists-put_self id i body s = rw (bytes_eq_refl (chunk_storage_key uuid id i)) refl

  -- A write shows nowhere else.
  pub objects-put_ne :
      (a b i j : ℕ) (body : Body) (s : Store)
      → i < u32_limit
      → j < u32_limit
      → ¬ ((a ≡ b) × (i ≡ j))
      → (put_object (chunk_storage_key uuid a i) body s).objects (chunk_storage_key uuid b j)
        ≡ s.objects (chunk_storage_key uuid b j)
  objects-put_ne a b i j body s hi hj ne =
      rw
        (bytes_eq-ne (chunk_storage_key uuid a i) (chunk_storage_key uuid b j)
          (λ e. ne (chunk_storage_key-injective uuid a b i j hi hj e)))
        refl

  -- A new chunk raises the count by one, and another upload's count stays.
  pub stored_chunks-put_new :
      (s : Store) (id k n : ℕ) (body : Body)
      → k < n
      → n < u32_limit
      → object_exists (chunk_storage_key uuid id k) s ≡ false
      → stored_chunks (put_object (chunk_storage_key uuid id k) body s) id n
        ≡ stored_chunks s id n + 1
  stored_chunks-put_new s id k n body h small new =
      count_below-more _ _ n k h new (object_exists-put_self id k body s) (λ i l ne.
        ap is_some
          (sym (objects-put_ne id id k i body s (omega arith) (omega arith) (λ e. ne (sym e.1)))))

  pub stored_chunks-put_other :
      (s : Store) (a b k n : ℕ) (body : Body)
      → a ≢ b
      → k < u32_limit
      → n < u32_limit
      → stored_chunks (put_object (chunk_storage_key uuid a k) body s) b n ≡ stored_chunks s b n
  stored_chunks-put_other s a b k n body ne hk hn =
      count_below-same _ _ n
        (λ i l. ap is_some (objects-put_ne a b k i body s hk (omega arith) (λ e. ne e.0)))

  -- A chunk that was there raises no count.
  pub stored_chunks-put_old :
      (s : Store) (a b k n : ℕ) (body : Body)
      → k < u32_limit
      → n < u32_limit
      → object_exists (chunk_storage_key uuid a k) s ≡ true
      → stored_chunks (put_object (chunk_storage_key uuid a k) body s) b n ≡ stored_chunks s b n
  stored_chunks-put_old s a b k n body hk hn old =
      count_below-same _ _ n
        (λ i l. object_exists-put_old s _ (chunk_storage_key uuid b i) body old)

  -- A write lowers no count.
  pub stored_chunks-le-put :
      (s : Store) (key : Text) (b n : ℕ) (body : Body)
      → stored_chunks s b n ≤ stored_chunks (put_object key body s) b n
  stored_chunks-le-put s key b n body =
      count_below_mono _ _ n (λ i h. object_exists-put s key (chunk_storage_key uuid b i) body h)

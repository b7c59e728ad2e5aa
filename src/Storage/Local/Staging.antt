-- ===== src/Storage/Local/Staging.antt =====
-- The staging keys of plugins/storage-local/src/lib.rs, and the parts that are stored under them.
use free_box.Prelude.{
  ℕ, ◌<◌, ◌≡◌, refl, ◌∙◌, sym, ap, Bool, true, false, not, ◌&&◌, Option, none, some, List, [], ◌∷◌,
  ◌++◌, bytes_eq, bytes_eq_sound, bytes_eq-ne, ltb, ◌==◌, if◌then◌else◌, length, length-append, map,
  arith,
}
use free_box.Server.Files.Keys.{Text, codes, pad8, u32_limit}
use free_box.Server.Files.Keys.Injective.{pad8-injective}
use free_box.Storage.{Bytes, CompletedPart}
use free_box.Storage.Local.{staging_key, insert_part, sort_by_key}

-- A part's number and its bytes.
abbrev pub Part : Type 0
Part = ℕ × Bytes

abbrev pub part_of : Part → CompletedPart
part_of q = record { part_number = q.0; etag = [] }

abbrev pub joined : List Part → Bytes
joined [] = []
joined (q ∷ qs) = q.1 ++ joined qs

-- The same parts in another order.
pub data Shuffle : List Part → List Part → Type 0 where
  finished : Shuffle [] []
  keep : (q : Part) (us vs : List Part) → Shuffle us vs → Shuffle (q ∷ us) (q ∷ vs)
  swap : (p q : Part) (us : List Part) → Shuffle (p ∷ q ∷ us) (q ∷ p ∷ us)
  chain : (us vs ws : List Part) → Shuffle us vs → Shuffle vs ws → Shuffle us ws

-- Part numbers of 32 bits that are all different.
abbrev pub fresh : ℕ → List Part → Bool
fresh n [] = true
fresh n (q ∷ qs) = not (q.0 == n) && fresh n qs

abbrev pub numbered : List Part → Bool
numbered [] = true
numbered (q ∷ qs) = ltb q.0 u32_limit && (fresh q.0 qs && numbered qs)

abbrev pub increasing : List Part → Bool
increasing [] = true
increasing (p ∷ []) = ltb p.0 u32_limit
increasing (p ∷ q ∷ qs) = ltb p.0 q.0 && increasing (q ∷ qs)

append-injective : (xs us vs : Text) → xs ++ us ≡ xs ++ vs → us ≡ vs
append-injective [] us vs h = h
append-injective (x ∷ xs) us vs h = append-injective xs us vs (cc h)

staging_key-injective :
    (key : Text) (m n : ℕ)
    → m < u32_limit
    → n < u32_limit
    → staging_key key m ≡ staging_key key n
    → m ≡ n
unfolding staging_key
staging_key-injective key m n hm hn h =
    pad8-injective m n hm hn (append-injective (key ++ codes ".part.") (pad8 m) (pad8 n) h)

pub apart :
    (key : Text) (m n : ℕ) (j : Text)
    → m < u32_limit
    → n < u32_limit
    → (m == n) ≡ false
    → bytes_eq (staging_key key m) j ≡ true
    → bytes_eq (staging_key key n) j ≡ false
apart key m n j hm hn differ h = bytes_eq-ne (staging_key key n) j (λ same. ground (
  arith,
  staging_key-injective key m n hm hn (bytes_eq_sound (staging_key key m) j h ∙ sym same),
))

-- What a store of objects holds at a key once parts are staged, and once they are cleared away.
abbrev pub staged : Text → List Part → Text → Option Bytes → Option Bytes
staged key [] j o = o
staged key (q ∷ qs) j o = if bytes_eq (staging_key key q.0) j then some q.1 else staged key qs j o

abbrev pub unstaged : Text → List Part → Text → Option Bytes → Option Bytes
unstaged key [] j o = o
unstaged key (q ∷ qs) j o = if bytes_eq (staging_key key q.0) j then none else unstaged key qs j o

fresh-Shuffle : (n : ℕ) (us vs : List Part) → Shuffle us vs → fresh n us ≡ fresh n vs
fresh-Shuffle n [] [] finished = refl
fresh-Shuffle n _ _ (keep q us vs h) = rw (fresh-Shuffle n us vs h) refl
fresh-Shuffle n _ _ (swap p q us) = ground arith
fresh-Shuffle n _ _ (chain us vs ws h k) = fresh-Shuffle n us vs h ∙ fresh-Shuffle n vs ws k

pub numbered-Shuffle : (us vs : List Part) → Shuffle us vs → numbered us ≡ numbered vs
numbered-Shuffle [] [] finished = refl
numbered-Shuffle _ _ (keep q us vs h) =
    rw (fresh-Shuffle q.0 us vs h, numbered-Shuffle us vs h) refl
numbered-Shuffle _ _ (swap p q us) = ground arith
numbered-Shuffle _ _ (chain us vs ws h k) = numbered-Shuffle us vs h ∙ numbered-Shuffle vs ws k

pub staged-fresh :
    (key : Text) (n : ℕ) (qs : List Part) (j : Text) (o : Option Bytes)
    → n < u32_limit
    → fresh n qs ≡ true
    → numbered qs ≡ true
    → bytes_eq (staging_key key n) j ≡ true
    → staged key qs j o ≡ o
staged-fresh key n [] j o hn f h e = refl
staged-fresh key n (q ∷ qs) j o hn f h e =
    ground (arith, apart key n q.0 j, staged-fresh key n qs j o)

pub staged-Shuffle :
    (key : Text) (us vs : List Part) (j : Text) (o : Option Bytes)
    → Shuffle us vs
    → numbered us ≡ true
    → staged key us j o ≡ staged key vs j o
staged-Shuffle key [] [] j o finished h = refl
staged-Shuffle key _ _ j o (keep q us vs k) h = ground (arith, staged-Shuffle key us vs j o k)
staged-Shuffle key _ _ j o (swap p q us) h = ground (arith, apart key p.0 q.0 j)
staged-Shuffle key _ _ j o (chain us vs ws k l) h =
    staged-Shuffle key us vs j o k h
    ∙ staged-Shuffle key vs ws j o l (sym (numbered-Shuffle us vs k) ∙ h)

insert_part_comm :
    (m n : ℕ) (ps : List CompletedPart)
    → insert_part
        (record { part_number = m; etag = [] })
        (insert_part (record { part_number = n; etag = [] }) ps)
      ≡ insert_part
          (record { part_number = n; etag = [] })
          (insert_part (record { part_number = m; etag = [] }) ps)
unfolding insert_part
insert_part_comm m n [] = ground arith
insert_part_comm m n (p ∷ ps) = ground (arith, insert_part_comm m n ps)

pub sort_by_key-Shuffle :
    (us vs : List Part)
    → Shuffle us vs
    → sort_by_key (map part_of us) ≡ sort_by_key (map part_of vs)
unfolding sort_by_key
sort_by_key-Shuffle [] [] finished = refl
sort_by_key-Shuffle _ _ (keep q us vs h) = rw (sort_by_key-Shuffle us vs h) refl
sort_by_key-Shuffle _ _ (swap p q us) = insert_part_comm p.0 q.0 (sort_by_key (map part_of us))
sort_by_key-Shuffle _ _ (chain us vs ws h k) =
    sort_by_key-Shuffle us vs h ∙ sort_by_key-Shuffle vs ws k

pub sort_by_key-increasing :
    (qs : List Part) → increasing qs ≡ true → sort_by_key (map part_of qs) ≡ map part_of qs
unfolding sort_by_key insert_part
sort_by_key-increasing [] h = refl
sort_by_key-increasing (p ∷ []) h = refl
sort_by_key-increasing (p ∷ q ∷ qs) h =
    rw (sort_by_key-increasing (q ∷ qs) (ground arith)) (ground arith)

increasing-fresh :
    (n : ℕ) (q : Part) (qs : List Part)
    → n < q.0
    → increasing (q ∷ qs) ≡ true
    → fresh n (q ∷ qs) ≡ true
increasing-fresh n q [] h k = ground arith
increasing-fresh n q (r ∷ qs) h k = ground (arith, increasing-fresh n r qs)

pub increasing-numbered : (qs : List Part) → increasing qs ≡ true → numbered qs ≡ true
increasing-numbered [] h = refl
increasing-numbered (p ∷ []) h = ground arith
increasing-numbered (p ∷ q ∷ qs) h =
    ground (arith, increasing-numbered (q ∷ qs), increasing-fresh p.0 q qs)

pub map-part_of_append :
    (qs : List Part) (x : Part) → map part_of (qs ++ x ∷ []) ≡ map part_of qs ++ part_of x ∷ []
map-part_of_append [] x = refl
map-part_of_append (q ∷ qs) x = rw (map-part_of_append qs x) refl

pub increasing-front :
    (qs : List Part) (x : Part) → increasing (qs ++ x ∷ []) ≡ true → increasing qs ≡ true
increasing-front [] x h = refl
increasing-front (p ∷ []) x h = ground arith
increasing-front (p ∷ q ∷ qs) x h = ground (arith, increasing-front (q ∷ qs) x)

-- A staging key is longer than its key.
pub staging_key-ne : (key : Text) (n : ℕ) → bytes_eq key (staging_key key n) ≡ false
unfolding staging_key
staging_key-ne key n =
    let longer : length key ≡ length (key ++ codes ".part." ++ pad8 n) → ⊥ = λ h.
      omega (
        arith,
        length-append (key ++ codes ".part.") (pad8 n),
        length-append key (codes ".part."),
      ) in
    bytes_eq-ne key (staging_key key n) (λ h. longer (ap length h))

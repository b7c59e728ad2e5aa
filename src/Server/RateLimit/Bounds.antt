-- ===== src/Server/RateLimit/Bounds.antt =====
-- What `RateLimiter::allow` of apps/server/src/rate_limit.rs keeps in memory.
use free_box.Prelude.{
  ℕ, ◌+◌, ◌≤◌, ◌<◌, ◌≡◌, refl, inl, inr, Bool, true, false, not, ◌&&◌, none, some, List, [], ◌∷◌,
  ◌++◌, length, All, bytes_eq, bytes_eq_refl, length-append, leb, if◌then◌else◌, arith, Bool-cases,
  if_either,
}
use free_box.Server.Files.Keys.{Text}
use free_box.Server.RateLimit.{
  RateLimiter, Bucket, drop_expired, is_empty, prune_expired, last, oldest, remove,
  evict_oldest_bucket, contains_key, stamps_of, insert, make_room, allow, evict, with_max_buckets,
}

abbrev pub IsFilled : ℕ → Bucket → Type 0
IsFilled most b = (0 < length b.stamps) × (length b.stamps ≤ most)

-- No more buckets than allowed, and none that is empty or holds too many times.
abbrev pub IsBounded : RateLimiter → List Bucket → Type 0
IsBounded l buckets = (length buckets ≤ l.max_buckets) × All (IsFilled l.max_requests) buckets

length-drop_expired :
    (window now : ℕ) (ts : List ℕ) → length (drop_expired window now ts) ≤ length ts
length-drop_expired window now [] = omega arith
length-drop_expired window now (t ∷ ts) = ground (arith, length-drop_expired window now ts)

not_empty : (ts : List ℕ) → is_empty ts ≡ false → 0 < length ts
not_empty [] h = cc
not_empty (t ∷ ts) h = omega arith

IsFilled-prune_expired :
    (most window now : ℕ) (bs : List Bucket)
    → All (IsFilled most) bs
    → All (IsFilled most) (prune_expired window now bs)
unfolding prune_expired
IsFilled-prune_expired most window now [] h = tt
IsFilled-prune_expired most window now (b ∷ bs) h =
    let rest = IsFilled-prune_expired most window now bs h.1 in
    let kept = drop_expired window now b.stamps in
    if_either (All (IsFilled most)) (is_empty kept) _ _ (λ e. rest)
      (λ e.
        ((not_empty kept e, omega (arith, length-drop_expired window now b.stamps, h.0.1)), rest))

length-prune_expired :
    (window now : ℕ) (bs : List Bucket) → length (prune_expired window now bs) ≤ length bs
unfolding prune_expired
length-prune_expired window now [] = omega arith
length-prune_expired window now (b ∷ bs) = ground (arith, length-prune_expired window now bs)

IsFilled-remove :
    (most : ℕ) (key : Text) (bs : List Bucket)
    → All (IsFilled most) bs
    → All (IsFilled most) (remove key bs)
unfolding remove
IsFilled-remove most key [] h = tt
IsFilled-remove most key (b ∷ bs) h =
    let rest = IsFilled-remove most key bs h.1 in
    if_either (All (IsFilled most)) (bytes_eq b.key key) _ _ (λ e. rest) (λ e. (h.0, rest))

length-remove-le : (key : Text) (bs : List Bucket) → length (remove key bs) ≤ length bs
unfolding remove
length-remove-le key [] = omega arith
length-remove-le key (b ∷ bs) = ground (arith, length-remove-le key bs)

length-remove :
    (key : Text) (bs : List Bucket)
    → contains_key key bs ≡ true
    → length (remove key bs) < length bs
unfolding remove contains_key
length-remove key [] h = cc
length-remove key (b ∷ bs) h = ground (arith, length-remove key bs, length-remove-le key bs)

length-insert :
    (key : Text) (ts : List ℕ) (bs : List Bucket)
    → length (insert key ts bs) ≡ (if contains_key key bs then length bs else length bs + 1)
unfolding insert contains_key
length-insert key ts [] = refl
length-insert key ts (b ∷ bs) = ground (arith, length-insert key ts bs)

IsFilled-insert :
    (most : ℕ) (key : Text) (ts : List ℕ) (bs : List Bucket)
    → (0 < length ts) × (length ts ≤ most)
    → All (IsFilled most) bs
    → All (IsFilled most) (insert key ts bs)
unfolding insert
IsFilled-insert most key ts [] h all = (h, tt)
IsFilled-insert most key ts (b ∷ bs) h all =
    let rest = IsFilled-insert most key ts bs h all.1 in
    if_either (All (IsFilled most)) (bytes_eq b.key key) _ _ (λ e. (h, all.1)) (λ e. (all.0, rest))

last-some : (ts : List ℕ) → 0 < length ts → (t : ℕ) × (last ts ≡ some t)
last-some [] h = absurd (omega arith)
last-some (t ∷ []) h = (t, refl)
last-some (t ∷ u ∷ ts) h = last-some (u ∷ ts) (omega arith)

-- Of filled buckets, some bucket is the oldest, and its key is there.
oldest_lem :
    (most : ℕ) (b : Bucket) (bs : List Bucket)
    → All (IsFilled most) (b ∷ bs)
    → (key : Text) × (t : ℕ) × (oldest (b ∷ bs) ≡ some (key, t))
      × (contains_key key (b ∷ bs) ≡ true)
unfolding oldest contains_key
oldest_lem most b [] h =
    let (t, e) = last-some b.stamps h.0.0 in (b.key, t, rw e refl, rw (bytes_eq_refl b.key) refl)
oldest_lem most b (c ∷ cs) h =
    let (t, e) = last-some b.stamps h.0.0 in
    let (key, u, best, there) = oldest_lem most c cs h.1 in
    elim (Bool-cases (leb t u)) [
      | inl first ↦ (b.key, t, rw (e, best, first) refl, rw (bytes_eq_refl b.key) refl)
      | inr second ↦ (key, u, rw (e, best, second) refl, ground (arith, there))
    ]

length-evict_oldest_bucket :
    (most : ℕ) (bs : List Bucket)
    → 0 < length bs
    → All (IsFilled most) bs
    → length (evict_oldest_bucket bs) < length bs
unfolding evict_oldest_bucket
length-evict_oldest_bucket most [] h all = absurd (omega arith)
length-evict_oldest_bucket most (b ∷ bs) h all =
    let (key, t, best, there) = oldest_lem most b bs all in
    rw best (length-remove key (b ∷ bs) there)

IsFilled-evict_oldest_bucket :
    (most : ℕ) (bs : List Bucket)
    → All (IsFilled most) bs
    → All (IsFilled most) (evict_oldest_bucket bs)
unfolding evict_oldest_bucket
IsFilled-evict_oldest_bucket most bs all =
    elim (oldest bs) as (λ o. All (IsFilled most) (evict o bs)) [
      | none ↦ all
      | some (key, t) ↦ IsFilled-remove most key bs all
    ]

pub stamps_of-le :
    (most : ℕ) (key : Text) (bs : List Bucket)
    → All (IsFilled most) bs
    → length (stamps_of key bs) ≤ most
unfolding stamps_of
stamps_of-le most key [] all = omega arith
stamps_of-le most key (b ∷ bs) all = ground (arith, stamps_of-le most key bs all.1, all.0)

-- After making room, the table has a place for the key.
make_room_lem :
    (l : RateLimiter) (key : Text) (live : List Bucket)
    → 0 < l.max_buckets
    → IsBounded l live
    → All (IsFilled l.max_requests) (make_room l key live)
      × ((if contains_key key (make_room l key live)
            then length (make_room l key live)
            else length (make_room l key live) + 1)
          ≤ l.max_buckets)
make_room_lem l key live some_room bounded =
    if_either
      (λ bs.
        All (IsFilled l.max_requests) bs
        × ((if contains_key key bs then length bs else length bs + 1) ≤ l.max_buckets))
      (not (contains_key key live) && leb l.max_buckets (length live)) _ _
      (λ full. (
        IsFilled-evict_oldest_bucket l.max_requests live bounded.1,
        ground (
          arith,
          length-evict_oldest_bucket l.max_requests live (ground arith) bounded.1,
          bounded.0,
        ),
      ))
      (λ free. (bounded.1, ground (arith, bounded.0)))

-- Whatever the settings, the key and the time, a request leaves at most the maximum of buckets, and in
-- each of them at least one and at most the maximum of request times.
pub allow-IsBounded :
    (max_requests window max_buckets : ℕ) (key : Text) (now : ℕ) (buckets : List Bucket)
    → IsBounded (with_max_buckets max_requests window max_buckets) buckets
    → IsBounded
        (with_max_buckets max_requests window max_buckets)
        (allow (with_max_buckets max_requests window max_buckets) key now buckets).1
unfolding allow with_max_buckets
allow-IsBounded max_requests window max_buckets key now buckets bounded =
    let l = with_max_buckets max_requests window max_buckets in
    let live = prune_expired window now buckets in
    let all = IsFilled-prune_expired l.max_requests window now buckets bounded.1 in
    let small = length-prune_expired window now buckets in
    let (filled, room) =
      make_room_lem l key live (ground arith) (omega (arith, small, bounded.0), all) in
    let bs = make_room l key live in
    let stamps = stamps_of key bs in
    if_either (λ (r : Bool × List Bucket). IsBounded l r.1) (leb l.max_requests (length stamps)) _ _
      (λ over. (
        rw (length-insert key stamps bs) room,
        IsFilled-insert l.max_requests key stamps bs
            (ground arith, stamps_of-le l.max_requests key bs filled) filled,
      ))
      (λ under. (
        rw (length-insert key (stamps ++ now ∷ []) bs) room,
        IsFilled-insert l.max_requests key (stamps ++ now ∷ []) bs
            (
              ground (arith, length-append stamps (now ∷ [])),
              ground (arith, length-append stamps (now ∷ [])),
            )
            filled,
      ))

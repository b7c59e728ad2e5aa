-- ===== src/Server/RateLimit.antt =====
-- apps/server/src/rate_limit.rs: a sliding window of request times for each key. The list of buckets is
-- the hash map in its iteration order; a new key stands at the end. Times are natural numbers, and the
-- subtraction stops at 0 as `Instant::duration_since` does.
pub mod Bounds
pub mod Buckets
pub mod Key
pub mod Window
mod Tests
use free_box.Prelude.{
  ℕ, ◌+◌, ◌-◌, Bool, true, false, not, ◌&&◌, Option, none, some, List, [], ◌∷◌, ◌++◌, length,
  bytes_eq, leb, ltb, if◌then◌else◌,
}
use free_box.Outcome.{Result, ok, err, reject_if}
use free_box.Server.Error.{AppError, rate_limited}
use free_box.Server.Files.Keys.{Text}

pub record RateLimiter : Type 0 where
  pub max_requests : ℕ
  pub window : ℕ
  pub max_buckets : ℕ

pub record Bucket : Type 0 where
  pub key : Text
  pub stamps : List ℕ

abbrev pub default_max_buckets : ℕ
default_max_buckets = 100000

-- `.max(1)`
abbrev at_least_one : ℕ → ℕ
at_least_one n = if ltb n 1 then 1 else n

unfoldable pub with_max_buckets : ℕ → ℕ → ℕ → RateLimiter
with_max_buckets max_requests window max_buckets = record {
  max_requests = at_least_one max_requests;
  window = window;
  max_buckets = at_least_one max_buckets;
}

unfoldable pub new_limiter : ℕ → ℕ → RateLimiter
unfolding with_max_buckets
new_limiter max_requests window = with_max_buckets max_requests window default_max_buckets

-- the `while` loop of `prune_expired`
abbrev pub drop_expired : ℕ → ℕ → List ℕ → List ℕ
drop_expired window now [] = []
drop_expired window now (t ∷ ts) =
    let rest = drop_expired window now ts in if leb window (now - t) then rest else t ∷ ts

abbrev pub is_empty : List ℕ → Bool
is_empty [] = true
is_empty (t ∷ ts) = false

unfoldable pub prune_expired : ℕ → ℕ → List Bucket → List Bucket
prune_expired window now [] = []
prune_expired window now (b ∷ bs) =
    let kept = drop_expired window now b.stamps in
    let rest = prune_expired window now bs in
    if is_empty kept then rest else record b { stamps = kept } ∷ rest

abbrev pub last : List ℕ → Option ℕ
last [] = none
last (t ∷ []) = some t
last (t ∷ u ∷ ts) = last (u ∷ ts)

-- `filter_map` and `min_by_key`, which keeps the first of equal minima
abbrev earlier : Text → Option ℕ → Option (Text × ℕ) → Option (Text × ℕ)
earlier key none best = best
earlier key (some t) none = some (key, t)
earlier key (some t) (some (other, u)) = if leb t u then some (key, t) else some (other, u)

unfoldable pub oldest : List Bucket → Option (Text × ℕ)
oldest [] = none
oldest (b ∷ bs) = earlier b.key (last b.stamps) (oldest bs)

unfoldable pub remove : Text → List Bucket → List Bucket
remove key [] = []
remove key (b ∷ bs) = let rest = remove key bs in if bytes_eq b.key key then rest else b ∷ rest

abbrev pub evict : Option (Text × ℕ) → List Bucket → List Bucket
evict none bs = bs
evict (some (key, t)) bs = remove key bs

unfoldable pub evict_oldest_bucket : List Bucket → List Bucket
unfolding oldest remove
evict_oldest_bucket bs = evict (oldest bs) bs

unfoldable pub contains_key : Text → List Bucket → Bool
contains_key key [] = false
contains_key key (b ∷ bs) = if bytes_eq b.key key then true else contains_key key bs

-- `entry(key).or_default()`
unfoldable pub stamps_of : Text → List Bucket → List ℕ
stamps_of key [] = []
stamps_of key (b ∷ bs) = if bytes_eq b.key key then b.stamps else stamps_of key bs

unfoldable pub insert : Text → List ℕ → List Bucket → List Bucket
insert key stamps [] = record { key = key; stamps = stamps } ∷ []
insert key stamps (b ∷ bs) =
    let rest = insert key stamps bs in
    if bytes_eq b.key key then record b { stamps = stamps } ∷ bs else b ∷ rest

-- `allow`, once it has the lock
abbrev pub make_room : RateLimiter → Text → List Bucket → List Bucket
make_room l key live =
    if not (contains_key key live) && leb l.max_buckets (length live)
    then evict_oldest_bucket live
    else live

abbrev pub take_slot : RateLimiter → Text → ℕ → List Bucket → Bool × List Bucket
take_slot l key now bs =
    let stamps = stamps_of key bs in
    if leb l.max_requests (length stamps)
    then (false, insert key stamps bs)
    else (true, insert key (stamps ++ now ∷ []) bs)

unfoldable pub allow : RateLimiter → Text → ℕ → List Bucket → Bool × List Bucket
unfolding prune_expired evict_oldest_bucket contains_key stamps_of insert
allow l key now buckets = take_slot l key now (make_room l key (prune_expired l.window now buckets))

-- `enforce`: the middleware, with the handler that runs next
unfoldable pub enforce {ℓ} :
    {A : Type ℓ}
    → RateLimiter
    → Text
    → ℕ
    → Result AppError A
    → List Bucket
    → Result AppError A × List Bucket
unfolding allow
enforce l key now next buckets =
    let (allowed, after) = allow l key now buckets in
    (if allowed then next else err rate_limited, after)

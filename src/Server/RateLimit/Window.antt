-- ===== src/Server/RateLimit/Window.antt =====
-- How many requests apps/server/src/rate_limit.rs admits in one window.
use free_box.Prelude.{
  ℕ, ◌≤◌, ◌≡◌, refl, sym, ap, ◌∙◌, inl, inr, Bool, true, false, List, [], ◌∷◌, ◌++◌, length,
  bytes_eq, bytes_eq_sound, leb, arith, Bool-cases, if_either, subst,
}
use free_box.Server.Files.Keys.{Text}
use free_box.Server.RateLimit.{
  RateLimiter, Bucket, prune_expired, stamps_of, insert, make_room, take_slot, allow,
  with_max_buckets,
}
use free_box.Server.RateLimit.Bounds.{IsBounded, stamps_of-le, allow-IsBounded}
use free_box.Server.RateLimit.Buckets.{
  count_live, recent, count_live-le, count_live-append, recent-append, Distinct,
  Distinct-prune_expired, Distinct-insert, stamps_of-insert, count_live-prune_expired,
}

abbrev pub limiter : ℕ → ℕ → ℕ → RateLimiter
limiter most window slots = with_max_buckets most window slots

abbrev pub logged : Bool → Text → ℕ → List (Text × ℕ) → List (Text × ℕ)
logged true key now log = log ++ (key, now) ∷ []
logged false key now log = log

-- The limiter serves requests in the order of their times, and no bucket is evicted. The log has what was
-- admitted. The code reads the clock before it has the lock, so that two requests that wait for the lock
-- may be served in the other order: such a run is not `Served`.
pub data Served (l : RateLimiter) : List (Text × ℕ) → ℕ → List Bucket → Type 0 where
  idle : Served l [] 0 []
  request :
      {log : List (Text × ℕ)} {before : ℕ} {buckets : List Bucket}
      → Served l log before buckets
      → (key : Text) (now : ℕ) → before ≤ now
      → make_room l key (prune_expired l.window now buckets) ≡ prune_expired l.window now buckets
      → Served l (logged (allow l key now buckets).0 key now log) now (allow l key now buckets).1

-- The buckets agree with the log from `now` on.
record IsLogged (l : RateLimiter) (log : List (Text × ℕ)) (now : ℕ) (buckets : List Bucket)
    : Type 0 where
  distinct : Distinct buckets
  agrees :
      (key : Text) (t : ℕ)
      → now ≤ t
      → recent l.window t key log ≡ count_live l.window t (stamps_of key buckets)

IsLogged-prune_expired :
    (l : RateLimiter) (log : List (Text × ℕ)) (before now : ℕ) (buckets : List Bucket)
    → before ≤ now
    → IsLogged l log before buckets
    → IsLogged l log now (prune_expired l.window now buckets)
IsLogged-prune_expired l log before now buckets h i = record {
  distinct = Distinct-prune_expired l.window now buckets i.distinct;
  agrees = λ key t k.
      i.agrees key t (omega arith)
      ∙ sym (count_live-prune_expired l.window now t key buckets k i.distinct);
}

IsLogged-take_slot :
    (l : RateLimiter) (log : List (Text × ℕ)) (now : ℕ) (key : Text) (bs : List Bucket)
    → IsLogged l log now bs
    → IsLogged l (logged (take_slot l key now bs).0 key now log) now (take_slot l key now bs).1
IsLogged-take_slot l log now key bs i =
    let stamps = stamps_of key bs in
    let own = λ (j : Text) (t : ℕ) (e : bytes_eq key j ≡ true).
      ap (λ x. count_live l.window t (stamps_of x bs)) (bytes_eq_sound key j e) in
    if_either (λ (r : Bool × List Bucket). IsLogged l (logged r.0 key now log) now r.1)
      (leb l.max_requests (length stamps)) (false, insert key stamps bs)
      (true, insert key (stamps ++ now ∷ []) bs)
      (λ over. record {
        distinct = Distinct-insert key stamps bs i.distinct;
        agrees = λ j t k. elim (Bool-cases (bytes_eq key j)) [
          | inl e ↦ rw (stamps_of-insert j key stamps bs, e) (i.agrees j t k ∙ sym (own j t e))
          | inr e ↦ rw (stamps_of-insert j key stamps bs, e) (i.agrees j t k)
        ];
      })
      (λ under. record {
        distinct = Distinct-insert key (stamps ++ now ∷ []) bs i.distinct;
        agrees = λ j t k. elim (Bool-cases (bytes_eq key j)) [
          | inl e ↦
              rw (stamps_of-insert j key (stamps ++ now ∷ []) bs, e)
                (ground (
                  arith,
                  recent-append l.window t j key now log,
                  count_live-append l.window t now stamps,
                  i.agrees j t k,
                  own j t e,
                ))
          | inr e ↦
              rw (stamps_of-insert j key (stamps ++ now ∷ []) bs, e)
                (ground (arith, recent-append l.window t j key now log, i.agrees j t k))
        ];
      })

IsLogged-allow :
    (l : RateLimiter) (log : List (Text × ℕ)) (before now : ℕ) (key : Text) (buckets : List Bucket)
    → before ≤ now
    → make_room l key (prune_expired l.window now buckets) ≡ prune_expired l.window now buckets
    → IsLogged l log before buckets
    → IsLogged l (logged (allow l key now buckets).0 key now log) now (allow l key now buckets).1
unfolding allow
IsLogged-allow l log before now key buckets h room i =
    subst
      (λ bs.
        IsLogged l (logged (take_slot l key now bs).0 key now log) now (take_slot l key now bs).1)
      (sym room)
      (IsLogged-take_slot l log now key (prune_expired l.window now buckets)
        (IsLogged-prune_expired l log before now buckets h i))

served_lem :
    (l : RateLimiter) {log : List (Text × ℕ)} {now : ℕ} {buckets : List Bucket}
    → Served l log now buckets
    → IsLogged l log now buckets
unfolding stamps_of
served_lem l idle = record { distinct = tt; agrees = λ key t h. refl }
served_lem l (request {log} {before} {buckets} run key now h room) =
    IsLogged-allow l log before now key buckets h room (served_lem l run)

served-IsBounded :
    (most window slots : ℕ) {log : List (Text × ℕ)} {now : ℕ} {buckets : List Bucket}
    → Served (limiter most window slots) log now buckets
    → IsBounded (limiter most window slots) buckets
served-IsBounded most window slots idle = (omega arith, tt)
served-IsBounded most window slots (request {buckets = buckets} run key now h room) =
    allow-IsBounded most window slots key now buckets (served-IsBounded most window slots run)

-- Take requests of any keys that are served in the order of their times, and suppose that no bucket is
-- evicted. At no time from the last request on are there more requests of one key in the window that
-- were admitted than the maximum (which is at least 1).
pub admitted_in_window :
    (most window slots : ℕ) (log : List (Text × ℕ)) (now : ℕ) (buckets : List Bucket)
    → Served (limiter most window slots) log now buckets
    → (key : Text) (t : ℕ) → now ≤ t
    → recent window t key log ≤ (limiter most window slots).max_requests
unfolding with_max_buckets
admitted_in_window most window slots log now buckets run key t h =
    let l = limiter most window slots in
    let bounded = served-IsBounded most window slots run in
    omega (
      arith,
      (served_lem l run).agrees key t h,
      count_live-le window t (stamps_of key buckets),
      stamps_of-le l.max_requests key buckets bounded.1,
    )

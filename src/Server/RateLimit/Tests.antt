-- ===== src/Server/RateLimit/Tests.antt =====
-- The limiter of apps/server/src/rate_limit.rs at concrete inputs: two requests in 10 time units, for
-- one key at a time.
use free_box.Prelude.{◌≡◌, refl, true, false, none, some, [], ◌∷◌, List, arith, bytes_eq, ℕ, ◌≤◌}
use free_box.Server.Files.Keys.{Text, codes}
use free_box.Prelude.Digits.{digits_be}
use free_box.Server.Auth.Handlers.{strip_prefix}
use free_box.Texts.Trim.{trim}
use free_box.Server.RateLimit.Key.{request_key}
use free_box.Server.RateLimit.{Bucket, with_max_buckets, allow}
use free_box.Server.RateLimit.Buckets.{recent}
use free_box.Server.RateLimit.Window.{Served, idle, request, limiter, admitted_in_window}

abbrev busy : List Bucket
busy = record { key = 1 ∷ []; stamps = 100 ∷ 105 ∷ [] } ∷ []

refused_while_full : allow (with_max_buckets 2 10 1) (1 ∷ []) 108 busy ≡ (false, busy)
unfolding allow with_max_buckets bytes_eq
refused_while_full = refl

-- One request in 5 time units. The request of time 15 waits for the lock while one of time 16 is served,
-- and is admitted next to the request of time 11.
late_request_admitted :
    let l = with_max_buckets 1 5 9 in
    let first = allow l (1 ∷ []) 11 [] in
    let other = allow l (2 ∷ []) 16 first.1 in
    let late = allow l (1 ∷ []) 15 other.1 in
    (first.0 ≡ true)
    × (late.0 ≡ true)
    × (recent 5 15 (1 ∷ []) ((1 ∷ [], 11) ∷ (1 ∷ [], 15) ∷ []) ≡ 2)
unfolding allow with_max_buckets bytes_eq
late_request_admitted = (refl, refl, refl)

abbrev log : List (Text × ℕ)
log = (1 ∷ [], 100) ∷ (1 ∷ [], 103) ∷ []

served : Served (limiter 2 10 5) log 103 (record { key = 1 ∷ []; stamps = 100 ∷ 103 ∷ [] } ∷ [])
unfolding allow with_max_buckets bytes_eq
served = request (request idle (1 ∷ []) 100 (omega arith) refl) (1 ∷ []) 103 (omega arith) refl

admitted_in_window_example : recent 10 109 (1 ∷ []) log ≤ (limiter 2 10 5).max_requests
admitted_in_window_example =
    admitted_in_window 2 10 5 log 103 (record { key = 1 ∷ []; stamps = 100 ∷ 103 ∷ [] } ∷ []) served
      (1 ∷ []) 109 (omega arith)

key_of_lower_bearer :
    request_key (λ t. 255) (some (codes "bearer  x ")) none ≡ codes "bearer:00000000000000ff"
unfolding request_key strip_prefix trim digits_be
key_of_lower_bearer = refl

-- ===== src/RateLimiter/Examples.antt =====
-- Runs of RateLimiter (backend/rate_limiter.py).
use paperless_iq.Prelude.{
  ℕ, ◌+◌, ◌-◌, ◌*◌, ◌≤◌, String, ◌≡◌, refl, List, [], ◌∷◌, arith, nat_eq, string_eq,
}
use paperless_iq.Prelude.Dict.{get, put}
use paperless_iq.RateLimiter.Buckets.{
  RateLimiter, retry_after, ceil_div, bucket_of, refill, take_token, check, update_config,
  checks_run, granted_to,
}
use paperless_iq.RateLimiter.Spans.{check_bound}

-- Two requests in ten seconds: a token is ten parts, and a tick is a second.
abbrev two_in_ten : RateLimiter
two_in_ten = record { max_requests = 2; window_seconds = 10; refill_rate = 2; buckets = [] }

abbrev checks : List (String × ℕ)
checks =
    ("ann", 100) ∷ ("bob", 100) ∷ ("ann", 101) ∷ ("ann", 101) ∷ ("ann", 104) ∷ ("ann", 109) ∷ []

-- The third request of ann comes too early, the later ones find a token each.
three_granted : granted_to 10 1 "ann" checks two_in_ten ≡ 3
unfolding granted_to check bucket_of refill take_token ceil_div get put
three_granted = refl

-- A client with an empty bucket waits for five seconds.
wait_five : (check 10 1 "ann" 100 (record two_in_ten { max_requests = 0 })).0 ≡ retry_after 5
unfolding check bucket_of refill take_token ceil_div get put
wait_five = refl

half_the_rate : (update_config 10 1 (λ max window. max) 1 20 two_in_ten).refill_rate ≡ 1
unfolding update_config
half_the_rate = refl

-- Ann is idle for long before the span.
abbrev idle : List (String × ℕ)
idle = ("ann", 3) ∷ []

check_bound_example :
    granted_to 10 1 "ann" checks (checks_run 10 1 idle two_in_ten) * 10 ≤ 2 * 10 + (109 - 100) * 2
unfolding get
check_bound_example =
    check_bound 10 1 "ann" 100 109 idle checks two_in_ten refl (omega arith, tt) (omega arith)

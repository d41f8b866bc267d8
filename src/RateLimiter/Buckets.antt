-- ===== src/RateLimiter/Buckets.antt =====
-- TokenBucket and RateLimiter (backend/rate_limiter.py) in exact arithmetic: a token is `unit` parts,
-- time counts ticks, of which a second has `second`, and a rate is parts per tick. `rate_of` is
-- `max_requests / window_seconds` in these units.
use paperless_iq.Prelude.{
  ℕ, ◌+◌, ◌-◌, ◌*◌, ◌/◌, min, max, String, Option, none, some, List, [], ◌∷◌, ltb, leb,
  if◌then◌else◌, nat_eq, string_eq, ◌==◌,
}
use paperless_iq.Prelude.Dict.{Dict, get, put}

pub record TokenBucket : Type 0 where
  pub tokens : ℕ
  pub last_refill : ℕ
  pub max_tokens : ℕ
  pub refill_rate : ℕ

pub record RateLimiter : Type 0 where
  pub max_requests : ℕ
  pub window_seconds : ℕ
  pub refill_rate : ℕ
  pub buckets : Dict String TokenBucket

-- `(True, 0)`, `(False, n)`, or ZeroDivisionError.
pub data CheckResult : Type 0 where
  allowed zero_division : CheckResult
  retry_after : ℕ → CheckResult

-- `math.ceil(a / b)`
unfoldable pub ceil_div : ℕ → ℕ → ℕ
ceil_div a b = (a + (b - 1)) / b

module _ (unit second : ℕ) where
  -- The bucket of a client; a new one is full.
  unfoldable pub bucket_of : ℕ → RateLimiter → Option TokenBucket → TokenBucket
  bucket_of now limiter none = record {
    tokens = limiter.max_requests * unit;
    last_refill = now;
    max_tokens = limiter.max_requests;
    refill_rate = limiter.refill_rate;
  }
  bucket_of now limiter (some bucket) = bucket

  -- "Refill tokens based on elapsed time", with the limiter's rate.
  unfoldable pub refill : ℕ → ℕ → TokenBucket → TokenBucket
  refill now rate bucket =
      if ltb bucket.last_refill now
      then record bucket {
        tokens = min (bucket.max_tokens * unit) (bucket.tokens + (now - bucket.last_refill) * rate);
        last_refill = now;
      }
      else bucket

  -- The verdict on a refilled bucket, and the bucket after it.
  unfoldable pub take_token : ℕ → TokenBucket → CheckResult × TokenBucket
  unfolding ceil_div
  take_token rate bucket =
      if leb unit bucket.tokens
      then (allowed, record bucket { tokens = bucket.tokens - unit })
      else if rate == 0
      then (zero_division, bucket)
      else (retry_after (ceil_div (unit - bucket.tokens) (rate * second)), bucket)

  unfoldable pub check : String → ℕ → RateLimiter → CheckResult × RateLimiter
  unfolding bucket_of refill take_token get put
  check client now limiter =
      let outcome =
        take_token limiter.refill_rate
          (refill now limiter.refill_rate (bucket_of now limiter (get limiter.buckets client))) in
      (outcome.0, record limiter { buckets = put limiter.buckets client outcome.1 })

  -- "Update existing buckets so the next check uses the new limits"
  unfoldable pub adapt : ℕ → ℕ → Dict String TokenBucket → Dict String TokenBucket
  adapt max rate [] = []
  adapt max rate ((client, bucket) ∷ buckets) =
      (
        client,
        record bucket {
          max_tokens = max;
          refill_rate = rate;
          tokens = min bucket.tokens (max * unit);
        },
      )
      ∷ adapt max rate buckets

  unfoldable pub update_config : (ℕ → ℕ → ℕ) → ℕ → ℕ → RateLimiter → RateLimiter
  unfolding adapt
  update_config rate_of max window limiter = record {
    max_requests = max;
    window_seconds = window;
    refill_rate = rate_of max window;
    buckets = adapt max (rate_of max window) limiter.buckets;
  }

  -- Checks of clients at times, the limiter after them, and how many of a client's were allowed.
  abbrev pub one_allowed : CheckResult → ℕ
  one_allowed allowed = 1
  one_allowed zero_division = 0
  one_allowed (retry_after n) = 0

  unfoldable pub checks_run : List (String × ℕ) → RateLimiter → RateLimiter
  unfolding check
  checks_run [] limiter = limiter
  checks_run ((k, now) ∷ checks) limiter = checks_run checks (check k now limiter).1

  unfoldable pub granted_to : String → List (String × ℕ) → RateLimiter → ℕ
  unfolding check
  granted_to client [] limiter = 0
  granted_to client ((k, now) ∷ checks) limiter =
      (if k == client then one_allowed (check k now limiter).0 else 0)
      + granted_to client checks (check k now limiter).1

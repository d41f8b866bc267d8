-- ===== src/RateLimiter/Granted.antt =====
-- What the buckets of RateLimiter (backend/rate_limiter.py) can still give.
use mathlib.Core.Path.{subst}
use native.Mathlib.Nat.{add-mul}
use paperless_iq.Prelude.{
  ℕ, ◌+◌, ◌-◌, ◌*◌, ◌≤◌, String, ◌≡◌, refl, sym, ap, ◌∙◌, inl, inr, Option, none, some, List, [],
  ◌∷◌, arith, ltb, leb, eqb, ltb→lt, leb→le, Bool-cases, All, nat_eq, string_eq, ◌==◌, eq_of_==,
}
use paperless_iq.Prelude.Dict.{Dict, get, put, get-put}
use paperless_iq.RateLimiter.Buckets.{
  TokenBucket, RateLimiter, CheckResult, bucket_of, refill, take_token, check, one_allowed,
  granted_to,
}

split_time : (a b c r : ℕ) → a ≤ b → b ≤ c → (b - a) * r + (c - b) * r ≡ (c - a) * r
split_time a b c r h q = sym (add-mul (b - a) (c - b) r) ∙ ap (λ n. n * r) (omega arith)

-- What a bucket can still give until the time `end_`.
abbrev pub credit : ℕ → ℕ → TokenBucket → ℕ
credit end_ rate b = b.tokens + (end_ - b.last_refill) * rate

module _ (unit second : ℕ) where
  refill-credit :
      (end_ now rate : ℕ) (b : TokenBucket)
      → now ≤ end_
      → b.last_refill ≤ end_
      → (credit end_ rate (refill unit second now rate b) ≤ credit end_ rate b)
        × ((refill unit second now rate b).last_refill ≤ end_)
  unfolding refill
  refill-credit end_ now rate b n l = elim (Bool-cases (ltb b.last_refill now)) [
    | inl e ↦ rw e (
      omega (
        arith,
        split_time b.last_refill now end_ rate (omega (arith, ltb→lt b.last_refill now e)) n,
      ),
      n,
    )
    | inr e ↦ rw e (omega arith, l)
  ]

  pub take_token-credit :
      (end_ rate : ℕ) (b : TokenBucket)
      → (one_allowed unit second (take_token unit second rate b).0 * unit
            + credit end_ rate (take_token unit second rate b).1
          ≤ credit end_ rate b)
        × ((take_token unit second rate b).1.last_refill ≡ b.last_refill)
  unfolding take_token
  take_token-credit end_ rate b = elim (Bool-cases (leb unit b.tokens)) [
    | inl e ↦ rw e (omega (arith, leb→le unit b.tokens e), refl)
    | inr e ↦ rw e (elim (Bool-cases (eqb rate 0)) [
      | inl z ↦ rw z (omega arith, refl)
      | inr z ↦ rw z (omega arith, refl)
    ])
  ]

  -- What a client can still be allowed, when its checks begin at `start`.
  abbrev pub client_credit : ℕ → ℕ → RateLimiter → Option TokenBucket → ℕ
  client_credit start end_ limiter none =
      limiter.max_requests * unit + (end_ - start) * limiter.refill_rate
  client_credit start end_ limiter (some b) = credit end_ limiter.refill_rate b

  abbrev pub Earlier : ℕ → Option TokenBucket → Type 0
  Earlier end_ none = Unit
  Earlier end_ (some b) = b.last_refill ≤ end_

  bucket_of-credit :
      (start end_ now : ℕ) (limiter : RateLimiter) (o : Option TokenBucket)
      → start ≤ now
      → now ≤ end_
      → Earlier end_ o
      → (credit end_ limiter.refill_rate (bucket_of unit second now limiter o)
          ≤ client_credit start end_ limiter o)
        × ((bucket_of unit second now limiter o).last_refill ≤ end_)
  unfolding bucket_of
  bucket_of-credit start end_ now limiter none s n l =
      (omega (arith, split_time start now end_ limiter.refill_rate s n), n)
  bucket_of-credit start end_ now limiter (some b) s n l = (omega arith, l)

  -- The bucket of a client after its check, and the verdict.
  abbrev pub outcome : ℕ → RateLimiter → Option TokenBucket → CheckResult × TokenBucket
  outcome now limiter o =
      take_token unit second limiter.refill_rate
        (refill unit second now limiter.refill_rate (bucket_of unit second now limiter o))

  pub outcome-credit :
      (start end_ now : ℕ) (limiter : RateLimiter) (o : Option TokenBucket)
      → start ≤ now
      → now ≤ end_
      → Earlier end_ o
      → (one_allowed unit second (outcome now limiter o).0 * unit
            + credit end_ limiter.refill_rate (outcome now limiter o).1
          ≤ client_credit start end_ limiter o)
        × ((outcome now limiter o).1.last_refill ≤ end_)
  outcome-credit start end_ now limiter o s n l =
      let first = bucket_of-credit start end_ now limiter o s n l in
      let filled =
        refill-credit end_ now limiter.refill_rate (bucket_of unit second now limiter o) n
          first.1 in
      let taken =
        take_token-credit end_ limiter.refill_rate
          (refill unit second now limiter.refill_rate (bucket_of unit second now limiter o)) in
      (omega (arith, first.0, filled.0, taken.0), omega (arith, taken.1, filled.1))

  client_credit-buckets :
      (start end_ : ℕ) (limiter : RateLimiter) (buckets : Dict String TokenBucket)
      (o : Option TokenBucket)
      → client_credit start end_ (record limiter { buckets = buckets }) o
        ≡ client_credit start end_ limiter o
  client_credit-buckets start end_ limiter buckets none = refl
  client_credit-buckets start end_ limiter buckets (some b) = refl

  pub own_check :
      (one rest rate : ℕ) (end_ total : ℕ) (b : TokenBucket)
      → one * unit + credit end_ rate b ≤ total
      → rest * unit ≤ credit end_ rate b
      → (one + rest) * unit ≤ total
  own_check one rest rate end_ total b h q = omega (arith, h, q, add-mul one rest unit)

  -- The checks of a client between `start` and `end_`, with those of any others between them.
  pub counted :
      (client : String) (start end_ : ℕ) (checks : List (String × ℕ)) (limiter : RateLimiter)
      → All (λ c. (start ≤ c.1) × (c.1 ≤ end_)) checks
      → Earlier end_ (get limiter.buckets client)
      → granted_to unit second client checks limiter * unit
        ≤ client_credit start end_ limiter (get limiter.buckets client)
  unfolding granted_to check
  counted client start end_ [] limiter a l = omega arith
  counted client start end_ ((k, now) ∷ checks) limiter a l = elim (Bool-cases (k == client)) [
    | inl e ↦
        let out = outcome now limiter (get limiter.buckets k) in
        let after : RateLimiter = record limiter { buckets = put limiter.buckets k out.1 } in
        let same : get limiter.buckets k ≡ get limiter.buckets client =
          ap (get limiter.buckets) (eq_of_== k client e) in
        let spent =
          outcome-credit start end_ now limiter (get limiter.buckets k) a.0.0 a.0.1
            (subst (Earlier end_) (sym same) l) in
        let there : get after.buckets client ≡ some out.1 =
          rw (get-put limiter.buckets k client out.1) (rw e refl) in
        let rest =
          subst
            (λ o.
              granted_to unit second client checks after * unit ≤ client_credit start end_ after o)
            there
            (counted client start end_ checks after a.1
              (subst (Earlier end_) (sym there) spent.1)) in
        rw e (
          own_check (one_allowed unit second out.0) (granted_to unit second client checks after)
            limiter.refill_rate end_ (client_credit start end_ limiter (get limiter.buckets client))
            out.1
            (subst
              (λ o.
                one_allowed unit second out.0 * unit + credit end_ limiter.refill_rate out.1
                ≤ client_credit start end_ limiter o)
              same spent.0)
            rest)
    | inr e ↦
        let out = outcome now limiter (get limiter.buckets k) in
        let after : RateLimiter = record limiter { buckets = put limiter.buckets k out.1 } in
        let there : get after.buckets client ≡ get limiter.buckets client =
          rw (get-put limiter.buckets k client out.1) (rw e refl) in
        rw e (
          omega (
            arith,
            subst
                (λ o.
                  granted_to unit second client checks after * unit
                  ≤ client_credit start end_ after o)
                there
                (counted client start end_ checks after a.1 (subst (Earlier end_) (sym there) l)),
            client_credit-buckets start end_ limiter after.buckets (get limiter.buckets client),
          ))
  ]

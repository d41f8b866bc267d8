-- ===== src/RateLimiter/Spans.antt =====
-- How many requests RateLimiter (backend/rate_limiter.py) allows in a span of time.
use mathlib.Core.Path.{subst}
use native.Mathlib.Nat.{add-mul}
use paperless_iq.Prelude.{
  ℕ, ◌+◌, ◌-◌, ◌*◌, ◌≤◌, String, ◌≡◌, refl, sym, ap, ◌∙◌, inl, inr, Option, none, some, List, [],
  ◌∷◌, arith, ltb, leb, eqb, Bool-cases, All, nat_eq, string_eq, ◌==◌, eq_of_==,
}
use paperless_iq.Prelude.Dict.{get, put, get-put}
use paperless_iq.RateLimiter.Buckets.{
  TokenBucket, RateLimiter, bucket_of, refill, take_token, check, one_allowed, checks_run,
  granted_to,
}
use paperless_iq.RateLimiter.Granted.{
  credit, take_token-credit, Earlier, client_credit, outcome, outcome-credit, own_check, counted,
}

shorter : (end_ now start rate : ℕ) → start ≤ now → (end_ - now) * rate ≤ (end_ - start) * rate
shorter end_ now start rate s =
    let less : end_ - now ≤ end_ - start = omega arith in
    let more : (end_ - start) * rate
        ≡ (end_ - now) * rate + ((end_ - start) - (end_ - now)) * rate =
      ap (λ n. n * rate) (omega arith)
      ∙ add-mul (end_ - now) ((end_ - start) - (end_ - now)) rate in
    omega arith

module _ (unit second : ℕ) where
  -- A bucket before `start`, full at most, with the limiter's capacity.
  abbrev Fits : ℕ → ℕ → Option TokenBucket → Type 0
  Fits start capacity none = Unit
  Fits start capacity (some b) =
      (b.last_refill ≤ start) × (b.tokens ≤ capacity * unit) × (b.max_tokens ≡ capacity)

  refill-Fits :
      (start capacity now rate : ℕ) (b : TokenBucket)
      → now ≤ start
      → Fits start capacity (some b)
      → Fits start capacity (some (refill unit second now rate b))
  unfolding refill
  refill-Fits start capacity now rate b n f = elim (Bool-cases (ltb b.last_refill now)) [
    | inl e ↦ rw e (n, omega (arith, ap (λ m. m * unit) f.2), f.2)
    | inr e ↦ rw e f
  ]

  take_token-Fits :
      (start capacity rate : ℕ) (b : TokenBucket)
      → Fits start capacity (some b)
      → Fits start capacity (some (take_token unit second rate b).1)
  unfolding take_token
  take_token-Fits start capacity rate b f = elim (Bool-cases (leb unit b.tokens)) [
    | inl e ↦ rw e (f.0, omega (arith, f.1), f.2)
    | inr e ↦ rw e (elim (Bool-cases (eqb rate 0)) [ inl z ↦ rw z f | inr z ↦ rw z f ])
  ]

  outcome-Fits :
      (start now : ℕ) (limiter : RateLimiter) (o : Option TokenBucket)
      → now ≤ start
      → Fits start limiter.max_requests o
      → Fits start limiter.max_requests (some (outcome unit second now limiter o).1)
  unfolding bucket_of
  outcome-Fits start now limiter o n f =
      take_token-Fits start limiter.max_requests limiter.refill_rate _
        (refill-Fits start limiter.max_requests now limiter.refill_rate _ n (opened o f))
    where
      opened :
          (o : Option TokenBucket)
          → Fits start limiter.max_requests o
          → Fits start limiter.max_requests (some (bucket_of unit second now limiter o))
      opened none f = (n, omega arith, refl)
      opened (some b) f = f

  -- However long a bucket has been idle, it starts the span with its capacity at most.
  refill-capped :
      (start end_ capacity now rate : ℕ) (b : TokenBucket)
      → start ≤ now
      → now ≤ end_
      → Fits start capacity (some b)
      → (credit end_ rate (refill unit second now rate b) ≤ capacity * unit + (end_ - start) * rate)
        × ((refill unit second now rate b).last_refill ≤ end_)
  unfolding refill
  refill-capped start end_ capacity now rate b s n f = elim (Bool-cases (ltb b.last_refill now)) [
    | inl e ↦ rw e (omega (arith, ap (λ m. m * unit) f.2, shorter end_ now start rate s), n)
    | inr e ↦
        let same : b.last_refill ≡ start = ground (arith, f.0, s) in
        rw e (omega (arith, f.1, ap (λ m. (end_ - m) * rate) same), omega (arith, f.0, s, n))
  ]

  first_check :
      (start end_ now : ℕ) (limiter : RateLimiter) (o : Option TokenBucket)
      → start ≤ now
      → now ≤ end_
      → Fits start limiter.max_requests o
      → (one_allowed unit second (outcome unit second now limiter o).0 * unit
            + credit end_ limiter.refill_rate (outcome unit second now limiter o).1
          ≤ limiter.max_requests * unit + (end_ - start) * limiter.refill_rate)
        × ((outcome unit second now limiter o).1.last_refill ≤ end_)
  first_check start end_ now limiter none s n f =
      outcome-credit unit second start end_ now limiter none s n tt
  first_check start end_ now limiter (some b) s n f =
      unfold bucket_of in
      let filled = refill-capped start end_ limiter.max_requests now limiter.refill_rate b s n f in
      let taken =
        take_token-credit unit second end_ limiter.refill_rate
          (refill unit second now limiter.refill_rate b) in
      (omega (arith, filled.0, taken.0), omega (arith, taken.1, filled.1))

  spanned :
      (client : String) (start end_ : ℕ) (checks : List (String × ℕ)) (limiter : RateLimiter)
      → All (λ c. (start ≤ c.1) × (c.1 ≤ end_)) checks
      → Fits start limiter.max_requests (get limiter.buckets client)
      → granted_to unit second client checks limiter * unit
        ≤ limiter.max_requests * unit + (end_ - start) * limiter.refill_rate
  unfolding granted_to check
  spanned client start end_ [] limiter a f = omega arith
  spanned client start end_ ((k, now) ∷ checks) limiter a f = elim (Bool-cases (k == client)) [
    | inl e ↦
        let out = outcome unit second now limiter (get limiter.buckets k) in
        let after : RateLimiter = record limiter { buckets = put limiter.buckets k out.1 } in
        let same : get limiter.buckets k ≡ get limiter.buckets client =
          ap (get limiter.buckets) (eq_of_== k client e) in
        let spent =
          first_check start end_ now limiter (get limiter.buckets k) a.0.0 a.0.1
            (subst (Fits start limiter.max_requests) (sym same) f) in
        let there : get after.buckets client ≡ some out.1 =
          rw (get-put limiter.buckets k client out.1) (rw e refl) in
        let rest =
          subst
            (λ o.
              granted_to unit second client checks after * unit
              ≤ client_credit unit second start end_ after o)
            there
            (counted unit second client start end_ checks after a.1
              (subst (Earlier unit second end_) (sym there) spent.1)) in
        rw e (
          own_check unit second (one_allowed unit second out.0)
            (granted_to unit second client checks after) limiter.refill_rate end_
            (limiter.max_requests * unit + (end_ - start) * limiter.refill_rate) out.1 spent.0 rest)
    | inr e ↦
        let out = outcome unit second now limiter (get limiter.buckets k) in
        let after : RateLimiter = record limiter { buckets = put limiter.buckets k out.1 } in
        let there : get after.buckets client ≡ get limiter.buckets client =
          rw (get-put limiter.buckets k client out.1) (rw e refl) in
        rw e (
          omega (
            arith,
            spanned client start end_ checks after a.1
                (subst (Fits start limiter.max_requests) (sym there) f),
          ))
  ]

  -- The checks before the span leave a bucket that fits.
  after_earlier :
      (client : String) (start end_ : ℕ) (earlier checks : List (String × ℕ))
      (limiter : RateLimiter)
      → Fits start limiter.max_requests (get limiter.buckets client)
      → All (λ c. c.1 ≤ start) earlier
      → All (λ c. (start ≤ c.1) × (c.1 ≤ end_)) checks
      → granted_to unit second client checks (checks_run unit second earlier limiter) * unit
        ≤ limiter.max_requests * unit + (end_ - start) * limiter.refill_rate
  unfolding checks_run check
  after_earlier client start end_ [] checks limiter f a c =
      spanned client start end_ checks limiter c f
  after_earlier client start end_ ((k, now) ∷ earlier) checks limiter f a c =
      after_earlier client start end_ earlier checks _
        (subst (Fits start limiter.max_requests)
          (sym (
            get-put limiter.buckets k client
              (outcome unit second now limiter (get limiter.buckets k)).1))
          (elim (Bool-cases (k == client)) [
            | inl e ↦ rw e (
                outcome-Fits start now limiter (get limiter.buckets k) a.0 (
                  subst (Fits start limiter.max_requests)
                    (ap (get limiter.buckets) (sym (eq_of_== k client e))) f))
            | inr e ↦ rw e f
          ]))
        a.1 c

  -- After any checks until `start`, of a client that had no bucket before them and of any others, the
  -- client is allowed between `start` and `end_`, however long it was idle and among any others, at
  -- most `max_requests` requests and what refills in that span, in parts of a token.
  pub check_bound :
      (client : String) (start end_ : ℕ) (earlier checks : List (String × ℕ))
      (limiter : RateLimiter)
      → get limiter.buckets client ≡ none
      → All (λ c. c.1 ≤ start) earlier
      → All (λ c. (start ≤ c.1) × (c.1 ≤ end_)) checks
      → granted_to unit second client checks (checks_run unit second earlier limiter) * unit
        ≤ limiter.max_requests * unit + (end_ - start) * limiter.refill_rate
  check_bound client start end_ earlier checks limiter new a c =
      after_earlier client start end_ earlier checks limiter
        (subst (Fits start limiter.max_requests) (sym new) tt) a c

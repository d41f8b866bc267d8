-- ===== src/Auth/Base64.antt =====
-- The padding of the user name in a session token (create_session and get_session_user in
-- backend/auth.py).
use paperless_iq.Prelude.{
  ℕ, zero, suc, ◌+◌, ◌-◌, ◌%◌, ◌≤◌, String, ◌≡◌, refl, sym, ap, ◌∙◌, ◌≢◌, inl, inr, false, ◌||◌,
  none, some, List, [], ◌∷◌, ◌++◌, arith, ltb, eqb, if◌then◌else◌, Bool-cases, length, replicate,
  All, nat_eq, string_eq, ==_refl, contains,
}
use paperless_iq.Auth.Sessions.{
  Crypto, AuthState, equals_sign, rstrip, padding, create_session, get_session_user,
}

-- What is documented of base64: the text has a length that is a multiple of four, its padding of at
-- most two characters follows characters of the alphabet, and it decodes to what was encoded.
pub record Base64 (cr : Crypto) (username : String) : Type 0 where
  pub body : List ℕ
  pub pads : ℕ
  pub encoded : cr.urlsafe_b64encode username ≡ body ++ replicate pads equals_sign
  pub few_pads : pads ≤ 2
  pub alphabet : All (λ c. eqb c equals_sign ≡ false) body
  pub in_fours : (length body + pads) % 4 ≡ 0
  pub decoded : cr.urlsafe_b64decode (cr.urlsafe_b64encode username) ≡ some username

rstrip-pads : (n : ℕ) → rstrip (replicate n equals_sign) ≡ []
unfolding rstrip
rstrip-pads zero = refl
rstrip-pads (suc n) = rw (rstrip-pads n) refl

rstrip-body :
    (body : List ℕ) (n : ℕ)
    → All (λ c. eqb c equals_sign ≡ false) body
    → rstrip (body ++ replicate n equals_sign) ≡ body
unfolding rstrip
rstrip-body [] n a = rstrip-pads n
rstrip-body (c ∷ body) n a = rw (rstrip-body body n a.1) (ground (arith, a.0))

padding-body :
    (body : List ℕ) (n : ℕ)
    → n ≤ 2
    → (length body + n) % 4 ≡ 0
    → padding body ≡ replicate n equals_sign
unfolding padding
padding-body body n l h = elim (Bool-cases (eqb (length body % 4) 0)) [
  | inl e ↦
      rw e
        (ap (λ k. replicate k equals_sign) (none_missing (length body) n l h (ground (arith, e))))
  | inr e ↦
      rw e (ap (λ k. replicate k equals_sign) (missing (length body) n l h (ground (arith, e))))
]
  where
    none_missing : (k n : ℕ) → n ≤ 2 → (k + n) % 4 ≡ 0 → k % 4 ≡ 0 → 0 ≡ n
    none_missing k n l h e = omega arith

    missing : (k n : ℕ) → n ≤ 2 → (k + n) % 4 ≡ 0 → k % 4 ≢ 0 → 4 - k % 4 ≡ n
    missing k n l h e = omega arith

-- A new token gives its user's name exactly until it is revoked or its seven days are over, when
-- base64 does with the name what is documented of it: the padding that is cut off is restored.
pub session_round_trip :
    (cr : Crypto) (st : AuthState) (jti username : String) (now later : ℕ)
    → Base64 cr username
    → get_session_user cr st (create_session cr jti username now) later
      ≡ (if contains st.revoked jti || ltb (now + 604800) later then none else some username)
unfolding get_session_user create_session
session_round_trip cr st jti username now later b =
    rw name_restored (ground (arith, ==_refl (cr.sign jti username (now + 604800))))
  where
    pads_stripped : rstrip (cr.urlsafe_b64encode username) ≡ b.body
    pads_stripped = ap rstrip b.encoded ∙ rstrip-body b.body b.pads b.alphabet

    name_restored :
        cr.urlsafe_b64decode (
          rstrip (cr.urlsafe_b64encode username)
          ++ padding (rstrip (cr.urlsafe_b64encode username)))
        ≡ some username
    name_restored =
        ap cr.urlsafe_b64decode (
          ap (λ u. u ++ padding u) pads_stripped
          ∙ (ap (◌++◌ b.body) (padding-body b.body b.pads b.few_pads b.in_fours) ∙ sym b.encoded))
        ∙ b.decoded

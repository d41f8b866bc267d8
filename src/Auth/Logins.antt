-- ===== src/Auth/Logins.antt =====
-- The limit on login attempts.
use paperless_iq.Prelude.{
  ℕ, ◌+◌, ◌-◌, ◌≤◌, ◌<◌, min, String, ◌≡◌, refl, ap, ◌∙◌, inl, inr, Bool, true, false, ◌&&◌, Option,
  none, some, List, [], ◌∷◌, arith, ltb, leb, if◌then◌else◌, leb→le, le→leb, Bool-cases, or_else,
  length, keep, All, nat_eq, string_eq, ◌==◌, eq_of_==, one_if,
}
use paperless_iq.Prelude.Dict.{get, put, get-put}
use paperless_iq.Auth.Sessions.{AuthState, count_attempt, check_login_rate_limit}

-- Attempts, an address and a time each, and how many of one address are allowed.
unfoldable pub allowed : String → List (String × ℕ) → AuthState → ℕ
allowed ip [] st = 0
allowed ip ((who, now) ∷ es) st =
    let (ok, st') = check_login_rate_limit who now st in
    one_if (who == ip && ok) + allowed ip es st'

abbrev pub by : String → String × ℕ → Bool
by ip (who, now) = who == ip

-- The attempts of the address come within a window from `from` on.
abbrev pub Within : String → ℕ → List (String × ℕ) → Type 0
Within ip from es = All (λ e. (by ip e ≡ true) → (from ≤ e.1) × (e.1 ≤ from + 300)) es

abbrev branches : Bool → Bool → String → ℕ → ℕ × ℕ → AuthState → Bool × AuthState
branches a b who now (c, w) st =
    if a
    then (true, record st { attempts = put st.attempts who (1, now) })
    else if b
    then (false, st)
    else (true, record st { attempts = put st.attempts who (c + 1, w) })

other_branches :
    (a b : Bool) (ip who : String) (now : ℕ) (e : ℕ × ℕ) (st : AuthState)
    → (who == ip) ≡ false
    → get (branches a b who now e st).1.attempts ip ≡ get st.attempts ip
other_branches true b ip who now (c, w) st h = get-put st.attempts who ip (1, now) ∙ rw h refl
other_branches false true ip who now (c, w) st h = refl
other_branches false false ip who now (c, w) st h =
    get-put st.attempts who ip (c + 1, w) ∙ rw h refl

other_attempt :
    (ip who : String) (now : ℕ) (st : AuthState)
    → (who == ip) ≡ false
    → get (check_login_rate_limit who now st).1.attempts ip ≡ get st.attempts ip
unfolding check_login_rate_limit count_attempt
other_attempt ip who now st h = go (or_else (get st.attempts who) (0, now))
  where
    go : (e : ℕ × ℕ) → get (count_attempt who now e st).1.attempts ip ≡ get st.attempts ip
    go (c, w) = other_branches (ltb 300 (now - w)) (leb 10 c) ip who now (c, w) st h

-- An attempt within the window, with the entry (c, w).
own_full :
    (ip : String) (now c w : ℕ) (st : AuthState)
    → now ≤ w + 300
    → 10 ≤ c
    → count_attempt ip now (c, w) st ≡ (false, st)
unfolding count_attempt
own_full ip now c w st h f = rw (not_over, le→leb 10 c f) refl
  where
    not_over : ltb 300 (now - w) ≡ false
    not_over = ground (arith, h)

own_more :
    (ip : String) (now c w : ℕ) (st : AuthState)
    → now ≤ w + 300
    → c < 10
    → count_attempt ip now (c, w) st
      ≡ (true, record st { attempts = put st.attempts ip (c + 1, w) })
unfolding count_attempt
own_more ip now c w st h f = rw (not_over, not_full) refl
  where
    not_over : ltb 300 (now - w) ≡ false
    not_over = ground (arith, h)

    not_full : leb 10 c ≡ false
    not_full = ground (arith, f)

limited :
    (ip : String) (now : ℕ) (st : AuthState) (o : Option (ℕ × ℕ))
    → get st.attempts ip ≡ o
    → check_login_rate_limit ip now st ≡ count_attempt ip now (or_else o (0, now)) st
unfolding check_login_rate_limit
limited ip now st o h = ap (λ x. count_attempt ip now (or_else x (0, now)) st) h

own_entry :
    (ip who : String) (n w : ℕ) (st : AuthState)
    → (who == ip) ≡ true
    → get (put st.attempts who (n, w)) ip ≡ some (n, w)
own_entry ip who n w st e = get-put st.attempts who ip (n, w) ∙ rw e refl

allowed_from :
    (ip : String) (from : ℕ) (es : List (String × ℕ)) (st : AuthState) (c w : ℕ)
    → get st.attempts ip ≡ some (c, w)
    → from ≤ w
    → Within ip from es
    → allowed ip es st ≡ min (10 - c) (length (keep (by ip) es))
unfolding allowed
allowed_from ip from [] st c w h l i = omega arith
allowed_from ip from ((who, now) ∷ es) st c w h l i = elim (Bool-cases (who == ip)) [
  | inl e ↦ elim (Bool-cases (leb 10 c)) [
    | inl f ↦
        let r =
          limited who now st (some (c, w)) (ap (get st.attempts) (eq_of_== who ip e) ∙ h)
          ∙ own_full who now c w st (omega (arith, l, (i.0 e).1)) (leb→le 10 c f) in
        rw (e, r) (omega (arith, allowed_from ip from es st c w h l i.1, leb→le 10 c f))
    | inr f ↦
        let r =
          limited who now st (some (c, w)) (ap (get st.attempts) (eq_of_== who ip e) ∙ h)
          ∙ own_more who now c w st (omega (arith, l, (i.0 e).1)) (ground (arith, f)) in
        let k = own_entry ip who (c + 1) w st e in
        rw (e, r)
          (ground (
            arith,
            f,
            allowed_from ip from es (record st { attempts = put st.attempts who (c + 1, w) })
                (c + 1) w k l i.1,
          ))
  ]
  | inr e ↦ rw e (
      omega (
        arith,
        allowed_from ip from es (check_login_rate_limit who now st).1 c w
            (other_attempt ip who now st e ∙ h) l i.1,
      ))
]

-- Of the login attempts of an address without an entry, all made within one span of 300 seconds and
-- in any order with those of other addresses, ten are allowed, or all if there are fewer.
pub login_limit :
    (ip : String) (from : ℕ) (es : List (String × ℕ)) (st : AuthState)
    → get st.attempts ip ≡ none
    → Within ip from es
    → allowed ip es st ≡ min 10 (length (keep (by ip) es))
unfolding allowed
login_limit ip from [] st h i = omega arith
login_limit ip from ((who, now) ∷ es) st h i = elim (Bool-cases (who == ip)) [
  | inl e ↦
      let r =
        limited who now st none (ap (get st.attempts) (eq_of_== who ip e) ∙ h)
        ∙ own_more who now 0 now st (omega arith) (omega arith) in
      let k = own_entry ip who (0 + 1) now st e in
      rw (e, r)
        (omega (
          arith,
          allowed_from ip from es (record st { attempts = put st.attempts who (0 + 1, now) })
              (0 + 1) now k (i.0 e).0 i.1,
        ))
  | inr e ↦ rw e (
      omega (
        arith,
        login_limit ip from es (check_login_rate_limit who now st).1
            (other_attempt ip who now st e ∙ h) i.1,
      ))
]

-- ===== src/Auth/Tokens.antt =====
-- What a session token opens, and until when (backend/auth.py).
use paperless_iq.Prelude.{
  ℕ, ◌+◌, ◌-◌, ◌≤◌, String, ◌≡◌, refl, sym, ap, ◌∙◌, ◌≢◌, inl, inr, Bool, true, false, ◌||◌, Option,
  none, some, List, [], ◌∷◌, ◌++◌, arith, ltb, leb, if◌then◌else◌, Bool-cases, or_else, All, nat_eq,
  string_eq, ◌==◌, ==_refl, eq_of_==, contains,
}
use paperless_iq.Prelude.Dict.{put}
use paperless_iq.Auth.Sessions.{
  Crypto, Token, AuthState, verified, padding, get_session_user, revoke_session, count_attempt,
  check_login_rate_limit,
}
use paperless_iq.Auth.Guard.{
  Request, passes, unauthorized, public_paths, admit, by_token, require_auth,
}

-- What changes the state of the module. A restart of the process clears both of its tables.
pub data Event : Type 0 where
  logs_out : Token → Event
  attempts_login : String → ℕ → Event
  restarts : Event

unfoldable pub event_step : AuthState → Event → AuthState
event_step st (logs_out t) = revoke_session t st
event_step st (attempts_login ip now) = (check_login_rate_limit ip now st).1
event_step st restarts = record { revoked = []; attempts = [] }

unfoldable pub events_run : AuthState → List Event → AuthState
unfolding event_step
events_run st [] = st
events_run st (e ∷ es) = events_run (event_step st e) es

count_attempt-revoked :
    (ip : String) (now : ℕ) (e : ℕ × ℕ) (st : AuthState)
    → (count_attempt ip now e st).1.revoked ≡ st.revoked
unfolding count_attempt
count_attempt-revoked ip now (c, w) st = choose (ltb 300 (now - w)) (leb 10 c)
  where
    answer : Bool → Bool → Bool × AuthState
    answer a b =
        if a
        then (true, record st { attempts = put st.attempts ip (1, now) })
        else if b
        then (false, st)
        else (true, record st { attempts = put st.attempts ip (c + 1, w) })

    choose : (a b : Bool) → (answer a b).1.revoked ≡ st.revoked
    choose true b = refl
    choose false true = refl
    choose false false = refl

still_revoked :
    (st : AuthState) (e : Event) (jti : String)
    → e ≢ restarts
    → contains st.revoked jti ≡ true
    → contains (event_step st e).revoked jti ≡ true
unfolding event_step revoke_session check_login_rate_limit
still_revoked st (logs_out t) jti q h = added (t.jti == "")
  where
    added :
        (b : Bool)
        → contains (if b then st else record st { revoked = t.jti ∷ st.revoked }).revoked jti ≡ true
    added true = h
    added false = ground (arith, h)
still_revoked st (attempts_login ip now) jti q h = rw (count_attempt-revoked ip now) h
still_revoked st restarts jti q h = absurd (q refl)

revoked_run :
    (st : AuthState) (es : List Event) (jti : String)
    → All (λ e. e ≢ restarts) es
    → contains st.revoked jti ≡ true
    → contains (events_run st es).revoked jti ≡ true
unfolding events_run
revoked_run st [] jti a h = h
revoked_run st (e ∷ es) jti a h =
    revoked_run (event_step st e) es jti a.1 (still_revoked st e jti a.0 h)

now_revoked :
    (t : Token) (st : AuthState)
    → (t.jti == "") ≡ false
    → contains (revoke_session t st).revoked t.jti ≡ true
unfolding revoke_session
now_revoked t st n = rw n (ground (arith, ==_refl t.jti))

denied_token :
    (cr : Crypto) (s : AuthState) (t : Token) (now : ℕ)
    → contains s.revoked t.jti ≡ true
    → get_session_user cr s t now ≡ none
unfolding get_session_user
denied_token cr s t now h = rw h refl

-- After a logout its token opens no protected route until the process restarts, whatever logouts and
-- login attempts come in between.
pub logged_out :
    (cr : Crypto) (st : AuthState) (t : Token) (es : List Event) (now : ℕ) (r : Request)
    → All (λ e. e ≢ restarts) es
    → (t.jti == "") ≡ false
    → (r.is_auth_route || contains public_paths r.path) ≡ false
    → r.bearer ≡ some t
    → require_auth cr true (events_run (revoke_session t st) es) now r ≡ unauthorized
unfolding require_auth
logged_out cr st t es now r a n p b =
    rw (p, b)
      (ap admit (
        denied_token cr (events_run (revoke_session t st) es) t now
          (revoked_run (revoke_session t st) es t.jti a (now_revoked t st n))))

-- What the checks of a token have seen when they answer a name.
record Checked (cr : Crypto) (st : AuthState) (now : ℕ) (t : Token) (name : String) : Type 0 where
  signed : t.sig ≡ cr.sign t.jti name t.exp
  valid : contains st.revoked t.jti ≡ false
  unexpired : now ≤ t.exp

verified_lem :
    (cr : Crypto) (t : Token) (o : Option String) (name : String)
    → verified cr t o ≡ some name
    → t.sig ≡ cr.sign t.jti name t.exp
verified_lem cr t none name h = cc
verified_lem cr t (some u) name h = elim (Bool-cases (t.sig == cr.sign t.jti u t.exp)) [
  | inl e ↦
      eq_of_== t.sig (cr.sign t.jti u t.exp) e
      ∙ ap (λ x. cr.sign t.jti (or_else x "") t.exp) (rw e at h)
  | inr e ↦ absurd (cc (rw e at h))
]

checked :
    (cr : Crypto) (st : AuthState) (t : Token) (now : ℕ) (name : String)
    → get_session_user cr st t now ≡ some name
    → Checked cr st now t name
unfolding get_session_user
checked cr st t now name h = elim (Bool-cases (contains st.revoked t.jti)) [
  | inl e ↦ absurd (cc (rw e at h))
  | inr e ↦ elim (Bool-cases (ltb t.exp now)) [
    | inl x ↦ absurd (cc (rw (e, x) at h))
    | inr x ↦ record {
      signed =
          verified_lem cr t (cr.urlsafe_b64decode (t.u_b64 ++ padding t.u_b64)) name
            (rw (e, x) at h);
      valid = e;
      unexpired = ground (arith, x);
    }
  ]
]

admitted :
    (o : Option String) (user : Option String)
    → admit o ≡ passes user
    → (name : String) × (o ≡ some name) × (user ≡ some name)
admitted none user h = cc
admitted (some name) user h = elim (Bool-cases (name == "")) [
  | inl e ↦ absurd (cc (rw e at h))
  | inr e ↦ (name, refl, sym (ap (λ v. elim v [ passes u ↦ u | unauthorized ↦ none ]) (rw e at h)))
]

by_token_signed :
    (cr : Crypto) (st : AuthState) (now : ℕ) (o : Option Token) (user : Option String)
    → by_token cr st now o ≡ passes user
    → (t : Token) × (name : String) × (o ≡ some t)
      × (user ≡ some name)
      × (t.sig ≡ cr.sign t.jti name t.exp)
      × (contains st.revoked t.jti ≡ false)
      × (now ≤ t.exp)
by_token_signed cr st now none user h = cc
by_token_signed cr st now (some t) user h =
    let a = admitted (get_session_user cr st t now) user h in
    let c = checked cr st t now a.0 a.1 in (t, a.0, refl, a.2, c.signed, c.valid, c.unexpired)

-- A protected route is passed only with a token that is signed for its user, is not revoked and has
-- not expired.
pub require_auth_signed :
    (cr : Crypto) (st : AuthState) (now : ℕ) (r : Request) (user : Option String)
    → (r.is_auth_route || contains public_paths r.path) ≡ false
    → require_auth cr true st now r ≡ passes user
    → (t : Token) × (name : String) × (r.bearer ≡ some t)
      × (user ≡ some name)
      × (t.sig ≡ cr.sign t.jti name t.exp)
      × (contains st.revoked t.jti ≡ false)
      × (now ≤ t.exp)
unfolding require_auth
require_auth_signed cr st now r user p h = by_token_signed cr st now r.bearer user (rw p at h)

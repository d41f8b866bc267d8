-- ===== src/Auth/Sessions.antt =====
-- Session tokens, the revocation set and the login limiter (backend/auth.py).
use paperless_iq.Prelude.{
  ℕ, ◌+◌, ◌-◌, ◌%◌, String, Bool, true, false, ◌&&◌, Option, none, some, List, [], ◌∷◌, ◌++◌, ltb,
  leb, if◌then◌else◌, or_else, length, replicate, nat_eq, string_eq, ◌==◌, contains,
}
use paperless_iq.Prelude.Dict.{Dict, get, put}

-- HMAC-SHA256 under the machine key of "<jti>:<username>:<exp>", given its three parts, and the
-- URL-safe base64 of a user name with its padding, as the code points of its characters:
-- standard-library code, hence parameters. None is an exception of the decoding.
pub record Crypto : Type 0 where
  pub sign : String → String → ℕ → String
  pub urlsafe_b64encode : String → List ℕ
  pub urlsafe_b64decode : List ℕ → Option String

-- The four parts of a token between the dots.
pub record Token : Type 0 where
  pub jti : String
  pub u_b64 : List ℕ
  pub exp : ℕ
  pub sig : String

abbrev pub token_ttl : ℕ
token_ttl = 604800

-- `_REVOKED` and `_LOGIN_ATTEMPTS`.
pub record AuthState : Type 0 where
  pub revoked : List String
  pub attempts : Dict String (ℕ × ℕ)

-- The code point of "=".
abbrev pub equals_sign : ℕ
equals_sign = 61

abbrev no_characters : List ℕ → Bool
no_characters [] = true
no_characters (c ∷ cs) = false

-- `.rstrip("=")`
unfoldable pub rstrip : List ℕ → List ℕ
rstrip [] = []
rstrip (c ∷ cs) =
    let rest = rstrip cs in if no_characters rest && c == equals_sign then [] else c ∷ rest

-- `"=" * (4 - len(u_b64) % 4) if len(u_b64) % 4 else ""`
unfoldable pub padding : List ℕ → List ℕ
padding u_b64 = if length u_b64 % 4 == 0 then [] else replicate (4 - length u_b64 % 4) equals_sign

unfoldable pub create_session : Crypto → String → String → ℕ → Token
unfolding rstrip
create_session cr jti username now = record {
  jti = jti;
  u_b64 = rstrip (cr.urlsafe_b64encode username);
  exp = now + token_ttl;
  sig = cr.sign jti username (now + token_ttl);
}

abbrev pub verified : Crypto → Token → Option String → Option String
verified cr t none = none
verified cr t (some username) =
    if t.sig == cr.sign t.jti username t.exp then some username else none

-- The checks in their order: revocation, expiry, the name, the signature.
unfoldable pub get_session_user : Crypto → AuthState → Token → ℕ → Option String
unfolding padding
get_session_user cr st t now =
    if contains st.revoked t.jti
    then none
    else if ltb t.exp now
    then none
    else verified cr t (cr.urlsafe_b64decode (t.u_b64 ++ padding t.u_b64))

-- An empty jti is not added.
unfoldable pub revoke_session : Token → AuthState → AuthState
revoke_session t st = if t.jti == "" then st else record st { revoked = t.jti ∷ st.revoked }

abbrev pub login_window : ℕ
login_window = 300

abbrev pub login_max : ℕ
login_max = 10

unfoldable pub count_attempt : String → ℕ → ℕ × ℕ → AuthState → Bool × AuthState
unfolding put
count_attempt ip now (count, window_start) st =
    if ltb login_window (now - window_start)
    then (true, record st { attempts = put st.attempts ip (1, now) })
    else if leb login_max count
    then (false, st)
    else (true, record st { attempts = put st.attempts ip (count + 1, window_start) })

unfoldable pub check_login_rate_limit : String → ℕ → AuthState → Bool × AuthState
unfolding count_attempt get
check_login_rate_limit ip now st = count_attempt ip now (or_else (get st.attempts ip) (0, now)) st

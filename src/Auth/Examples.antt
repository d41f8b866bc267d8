-- ===== src/Auth/Examples.antt =====
-- The theorems about authentication at small concrete inputs.
use paperless_iq.Prelude.{
  ℕ, ◌+◌, ◌≤◌, min, String, ◌≡◌, refl, true, false, ◌||◌, none, some, List, [], ◌∷◌, arith, ltb,
  if◌then◌else◌, length, keep, nat_eq, string_eq, ◌==◌, contains,
}
use paperless_iq.Prelude.Dict.{get}
use paperless_iq.Auth.Sessions.{
  Crypto, Token, AuthState, create_session, get_session_user, revoke_session,
}
use paperless_iq.Auth.Guard.{Request, unauthorized, require_auth}
use paperless_iq.Auth.Base64.{Base64, session_round_trip}
use paperless_iq.Auth.Tokens.{attempts_login, events_run, logged_out, require_auth_signed}
use paperless_iq.Auth.Logins.{allowed, by, login_limit}

-- A signature that names its user, and the base64 of one name.
abbrev one_name : Crypto
one_name = record {
  sign = λ jti username exp. username;
  urlsafe_b64encode = λ s. 89 ∷ 87 ∷ 119 ∷ 61 ∷ [];
  urlsafe_b64decode = λ u. if length u == 4 then some "al" else none;
}

one_name-Base64 : Base64 one_name "al"
one_name-Base64 = record {
  body = 89 ∷ 87 ∷ 119 ∷ [];
  pads = 1;
  encoded = refl;
  few_pads = omega arith;
  alphabet = (refl, (refl, (refl, tt)));
  in_fours = refl;
  decoded = refl;
}

abbrev no_state : AuthState
no_state = record { revoked = []; attempts = [] }

abbrev session : Token
session = record { jti = "a1"; u_b64 = 89 ∷ 87 ∷ 119 ∷ []; exp = 604800; sig = "al" }

abbrev request : Request
request = record { is_auth_route = false; path = "/api/queue"; bearer = some session }

session_round_trip_example :
    get_session_user one_name no_state (create_session one_name "a1" "al" 0) 100
    ≡ (if contains no_state.revoked "a1" || ltb (0 + 604800) 100 then none else some "al")
session_round_trip_example = session_round_trip one_name no_state "a1" "al" 0 100 one_name-Base64

logged_out_example :
    require_auth one_name true
      (events_run (revoke_session session no_state) (attempts_login "10.0.0.1" 4 ∷ []))
      5
      request
    ≡ unauthorized
logged_out_example =
    logged_out one_name no_state session (attempts_login "10.0.0.1" 4 ∷ []) 5 request
      ((λ e. cc), tt) refl refl refl

require_auth_signed_example :
    (t : Token) × (name : String) × (request.bearer ≡ some t)
    × (some "al" ≡ some name)
    × (t.sig ≡ one_name.sign t.jti name t.exp)
    × (contains no_state.revoked t.jti ≡ false)
    × (5 ≤ t.exp)
unfolding require_auth get_session_user
require_auth_signed_example = require_auth_signed one_name no_state 5 request (some "al") refl refl

abbrev attempts : List (String × ℕ)
attempts = ("x", 1) ∷ ("y", 2) ∷ ("x", 3) ∷ []

login_limit_example : allowed "x" attempts no_state ≡ min 10 (length (keep (by "x") attempts))
unfolding get
login_limit_example = login_limit "x" 1 attempts no_state refl (
  (λ e. (omega arith, omega arith)),
  ((λ e. (omega arith, omega arith)), ((λ e. (omega arith, omega arith)), tt)),
)

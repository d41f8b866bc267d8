-- ===== src/Auth/Guard.antt =====
-- `require_auth` (backend/auth.py): the dependency of every route.
use paperless_iq.Prelude.{
  ℕ, String, Bool, ◌||◌, not, Option, none, some, List, [], ◌∷◌, if◌then◌else◌, nat_eq, string_eq,
  ◌==◌, contains,
}
use paperless_iq.Auth.Sessions.{Crypto, Token, AuthState, get_session_user}

-- What the guard reads of a request: whether the path starts with "/api/auth/", the path, and the
-- token after "Bearer ", if the header has one.
pub record Request : Type 0 where
  pub is_auth_route : Bool
  pub path : String
  pub bearer : Option Token

-- The request goes on, with `request.state.user` if it is set; or the answer is 401.
pub data Verdict : Type 0 where
  passes : Option String → Verdict
  unauthorized : Verdict

abbrev pub public_paths : List String
public_paths = "/api/status" ∷ "/api/theme" ∷ "/health" ∷ []

-- `if user`: an empty name is falsy.
abbrev pub admit : Option String → Verdict
admit none = unauthorized
admit (some user) = if user == "" then unauthorized else passes (some user)

abbrev pub by_token : Crypto → AuthState → ℕ → Option Token → Verdict
by_token cr st now none = unauthorized
by_token cr st now (some t) = admit (get_session_user cr st t now)

-- `configured`: PAPERLESS_URL is set.
unfoldable pub require_auth : Crypto → Bool → AuthState → ℕ → Request → Verdict
require_auth cr configured st now r =
    if r.is_auth_route || contains public_paths r.path
    then passes none
    else if not configured
    then passes none
    else by_token cr st now r.bearer

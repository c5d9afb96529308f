-- ===== src/Access.antt =====
-- Access tokens: `create_access_token` and `decode_access_token` of evren-backend/app/security.py, and
-- `get_current_user` and `require_admin` of evren-backend/app/dependencies.py. PyJWT is a parameter; a
-- clock reading is an argument.
pub mod Admission
use Prim.Native.String.{String}
use text.Mathlib.Text.{◌==◌ as str_eq}
use ufuk_ai_agent.Prelude.{
  ℕ, ◌+◌, ◌*◌, ◌/◌, ◌≤◌, ◌≡◌, Bool, true, false, not, ltb, Option, none, some, List, if◌then◌else◌,
}
use ufuk_ai_agent.Errors.{ApiError, Outcome, ok, raise, crash, api_error}
use ufuk_ai_agent.Models.{microseconds_per_second}
use ufuk_ai_agent.Subscriptions.Tables.{first}
use ufuk_ai_agent.SignIn.{Account, UserRole, has_id}

-- The claims that the backend writes; `iat` and `exp` are in seconds.
pub record Claims : Type 0 where
  pub sub : String
  pub type : String
  pub iat : ℕ
  pub exp : ℕ

-- How `jwt.decode` ends, with the four claims required; every other `PyJWTError` is `invalid`.
pub data Verdict : Type 0 where
  valid : Claims → Verdict
  expired invalid : Verdict

-- `jwt.encode` of claims with a secret, and `jwt.decode` of a token with a secret at a time, under the
-- configured algorithm.
pub record Jwt : Type 0 where
  pub encode : Claims → String → String
  pub decode : ℕ → String → String → Verdict

-- A token is read back under its secret from its `iat` until its `exp`, and is expired from then on.
pub record IsLawful (jwt : Jwt) : Type 0 where
  pub decode-encode :
      (claims : Claims) (secret : String) (now : ℕ)
      → claims.iat * microseconds_per_second ≤ now
      → jwt.decode now secret (jwt.encode claims secret)
        ≡ (if ltb now (claims.exp * microseconds_per_second) then valid claims else expired)

-- `show_id` and `read_id` are `str` and `uuid.UUID` of an id.
pub record Settings : Type 0 where
  pub jwt_secret : String
  pub access_token_ttl_seconds : ℕ
  pub show_id : ℕ → String
  pub read_id : String → Option ℕ
  pub lower : String → String

-- The scheme and the token of an Authorization header.
abbrev pub Credentials : Type 0
Credentials = String × String

pub data Decoded : Type 0 where
  user_id : ℕ → Decoded
  token_expired token_invalid not_an_id : Decoded

abbrev pub unauthorized : String → ApiError
unauthorized code = api_error 401 code

abbrev pub access_claims : Settings → ℕ → ℕ → Claims
access_claims c id now = record {
  sub = c.show_id id;
  type = "access";
  iat = now / microseconds_per_second;
  exp = (now + c.access_token_ttl_seconds * microseconds_per_second) / microseconds_per_second;
}

unfoldable pub create_access_token : Jwt → Settings → ℕ → ℕ → String × ℕ
create_access_token jwt c id now = (
  jwt.encode (access_claims c id now) c.jwt_secret,
  now + c.access_token_ttl_seconds * microseconds_per_second,
)

abbrev pub read_sub : Option ℕ → Decoded
read_sub none = not_an_id
read_sub (some id) = user_id id

-- The claims of a token that PyJWT accepted.
unfoldable pub read_claims : Settings → Claims → Decoded
read_claims c claims =
    if str_eq claims.type "access" then read_sub (c.read_id claims.sub) else token_invalid

abbrev pub by_verdict : Settings → Verdict → Decoded
by_verdict c (valid claims) = read_claims c claims
by_verdict c expired = token_expired
by_verdict c invalid = token_invalid

unfoldable pub decode_access_token : Jwt → Settings → String → ℕ → Decoded
unfolding read_claims
decode_access_token jwt c token now = by_verdict c (jwt.decode now c.jwt_secret token)

abbrev pub only_active : Option Account → Outcome Account
only_active none = raise (unauthorized "invalid_api_key")
only_active (some a) = if a.is_active then ok a else raise (unauthorized "invalid_api_key")

-- What follows the token; `uuid.UUID` raises no `PyJWTError`.
abbrev pub find_current : List Account → Decoded → Outcome Account
find_current accounts (user_id id) = only_active (first (has_id id) accounts)
find_current accounts token_expired = raise (unauthorized "token_expired")
find_current accounts token_invalid = raise (unauthorized "invalid_api_key")
find_current accounts not_an_id = crash

unfoldable pub get_current_user :
    Jwt → Settings → List Account → Option Credentials → ℕ → Outcome Account
unfolding decode_access_token
get_current_user jwt c accounts credentials now = elim credentials [
  | none ↦ raise (unauthorized "invalid_api_key")
  | some (scheme, token) ↦
      if not (str_eq (c.lower scheme) "bearer")
      then raise (unauthorized "invalid_api_key")
      else find_current accounts (decode_access_token jwt c token now)
]

abbrev pub by_role : Account → UserRole → Outcome Account
by_role a UserRole.admin = ok a
by_role a UserRole.user = raise (api_error 403 "forbidden")

unfoldable pub require_admin : Outcome Account → Outcome Account
require_admin (Outcome.ok a) = by_role a a.role
require_admin (Outcome.raise e) = raise e
require_admin Outcome.crash = crash

-- ===== src/Access/Admission.antt =====
-- Whom `get_current_user` admits, and for how long a token of `create_access_token` is good.
use Prim.Native.String.{String}
use text.Mathlib.Text.{◌==◌ as str_eq}
use ufuk_ai_agent.Prelude.{
  ℕ, ◌+◌, ◌*◌, ◌/◌, ◌≤◌, ◌≡◌, ◌∙◌, ap, refl, inl, inr, ◌⊎◌, Bool, true, false, not, ltb, Option,
  none, some, List, arith, if◌then◌else◌,
}
use ufuk_ai_agent.Errors.{Outcome, ok, raise}
use ufuk_ai_agent.Models.{microseconds_per_second}
use ufuk_ai_agent.Subscriptions.Tables.{first}
use ufuk_ai_agent.SignIn.{Account, has_id}
use ufuk_ai_agent.Access.{
  read_sub, Jwt, IsLawful, Settings, Claims, Credentials, Verdict, valid, expired, invalid,
  token_invalid, unauthorized, access_claims, create_access_token, read_claims, by_verdict,
  decode_access_token, only_active, find_current, get_current_user,
}

-- A bearer token that is valid under the secret and is an access token for an id.
pub record Presents (jwt : Jwt) (c : Settings) (credentials : Option Credentials) (now : ℕ)
    (read : Option ℕ) : Type 0 where
  pub scheme : String
  pub token : String
  pub claims : Claims
  pub given : credentials ≡ some (scheme, token)
  pub bearer : str_eq (c.lower scheme) "bearer" ≡ true
  pub verdict : jwt.decode now c.jwt_secret token ≡ valid claims
  pub access : str_eq claims.type "access" ≡ true
  pub names : c.read_id claims.sub ≡ read

-- By how `get_current_user` ended.
abbrev pub Admits :
    Jwt → Settings → List Account → Option Credentials → ℕ → Outcome Account → Type 0
Admits jwt c accounts credentials now (Outcome.ok a) =
    (id : ℕ) × Presents jwt c credentials now (some id)
    × (first (has_id id) accounts ≡ some a)
    × (a.is_active ≡ true)
Admits jwt c accounts credentials now (Outcome.raise e) =
    (e ≡ unauthorized "invalid_api_key")
    ⊎ ((e ≡ unauthorized "token_expired")
        × ((scheme : String) × (token : String) × (credentials ≡ some (scheme, token))
            × (jwt.decode now c.jwt_secret token ≡ expired)))
Admits jwt c accounts credentials now Outcome.crash = Presents jwt c credentials now none

module _ (jwt : Jwt) (c : Settings) (accounts : List Account) (now : ℕ) where
  only_active-Admits :
      (credentials : Option Credentials) (id : ℕ) (o : Option Account)
      → Presents jwt c credentials now (some id)
      → first (has_id id) accounts ≡ o
      → Admits jwt c accounts credentials now (only_active o)
  only_active-Admits credentials id none p e = inl refl
  only_active-Admits credentials id (some a) p e = by_active a.is_active refl
    where
      by_active :
          (b : Bool)
          → a.is_active ≡ b
          → Admits jwt c accounts credentials now
              (if b then ok a else raise (unauthorized "invalid_api_key"))
      by_active true active = (id, p, e, active)
      by_active false inactive = inl refl

module _ (jwt : Jwt) (c : Settings) (accounts : List Account) (now : ℕ) (scheme token : String)
    (bearer : str_eq (c.lower scheme) "bearer" ≡ true) where
  read_claims-Admits :
      (claims : Claims)
      → jwt.decode now c.jwt_secret token ≡ valid claims
      → Admits jwt c accounts
          (some (scheme, token))
          now
          (find_current accounts (read_claims c claims))
  unfolding read_claims
  read_claims-Admits claims v =
      by_type (str_eq claims.type "access") refl (c.read_id claims.sub) refl
    where
      by_type :
          (b : Bool)
          → str_eq claims.type "access" ≡ b
          → (o : Option ℕ) → c.read_id claims.sub ≡ o
          → Admits jwt c accounts
              (some (scheme, token))
              now
              (find_current accounts (if b then read_sub o else token_invalid))
      by_type false other o e = inl refl
      by_type true access none e = record {
        scheme = scheme;
        token = token;
        claims = claims;
        given = refl;
        bearer = bearer;
        verdict = v;
        access = access;
        names = e;
      }
      by_type true access (some id) e =
          only_active-Admits jwt c accounts now (some (scheme, token)) id
            (first (has_id id) accounts)
            (record {
              scheme = scheme;
              token = token;
              claims = claims;
              given = refl;
              bearer = bearer;
              verdict = v;
              access = access;
              names = e;
            })
            refl

  by_verdict-Admits :
      (v : Verdict)
      → jwt.decode now c.jwt_secret token ≡ v
      → Admits jwt c accounts (some (scheme, token)) now (find_current accounts (by_verdict c v))
  by_verdict-Admits (valid claims) e = read_claims-Admits claims e
  by_verdict-Admits expired e = inr (refl, (scheme, token, refl, e))
  by_verdict-Admits invalid e = inl refl

-- Whom a request is taken for. An account: the request has a bearer token that PyJWT accepts under
-- the secret, whose type is access and whose subject is the id of that account, and the account is
-- active. An error: `invalid_api_key`, or `token_expired` where PyJWT finds the token expired. Any
-- other exception: the token is accepted, and its subject is no id.
pub get_current_user-Admits :
    (jwt : Jwt) (c : Settings) (accounts : List Account) (credentials : Option Credentials)
    (now : ℕ)
    → Admits jwt c accounts credentials now (get_current_user jwt c accounts credentials now)
unfolding get_current_user decode_access_token
get_current_user-Admits jwt c accounts none now = inl refl
get_current_user-Admits jwt c accounts (some (scheme, token)) now =
    by_scheme (str_eq (c.lower scheme) "bearer") refl
  where
    by_scheme :
        (b : Bool)
        → str_eq (c.lower scheme) "bearer" ≡ b
        → Admits jwt c accounts (some (scheme, token)) now (
            if not b
            then raise (unauthorized "invalid_api_key")
            else find_current accounts (by_verdict c (jwt.decode now c.jwt_secret token)))
    by_scheme true bearer =
        by_verdict-Admits jwt c accounts now scheme token bearer (jwt.decode now c.jwt_secret token)
          refl
    by_scheme false other = inl refl

exp_seconds :
    (now ttl : ℕ)
    → (now + ttl * microseconds_per_second) / microseconds_per_second
      ≡ now / microseconds_per_second + ttl
exp_seconds now ttl = omega arith

-- For an active account whose id is read back from its text, found first under its id: the token
-- that is created for it at one time signs it in at any later time before the whole second of
-- creation plus the time to live, and from then on raises `token_expired`.
pub get_current_user-create_access_token :
    (jwt : Jwt) (L : IsLawful jwt) (c : Settings) (accounts : List Account) (scheme : String)
    (a : Account) (now later : ℕ)
    → c.read_id (c.show_id a.id) ≡ some a.id
    → str_eq (c.lower scheme) "bearer" ≡ true
    → first (has_id a.id) accounts ≡ some a
    → a.is_active ≡ true
    → now ≤ later
    → get_current_user jwt c accounts (some (scheme, (create_access_token jwt c a.id now).0)) later
      ≡ (if ltb later
            ((now / microseconds_per_second + c.access_token_ttl_seconds) * microseconds_per_second)
          then ok a
          else raise (unauthorized "token_expired"))
unfolding get_current_user decode_access_token create_access_token read_claims
get_current_user-create_access_token jwt L c accounts scheme a now later reads bearer found active
      h =
    rw (bearer, L.decode-encode (access_claims c a.id now) c.jwt_secret later (omega arith))
      (in_time (ltb later ((access_claims c a.id now).exp * microseconds_per_second)))
    ∙ ap
        (λ (s : ℕ).
          if ltb later (s * microseconds_per_second)
          then ok a
          else raise (unauthorized "token_expired"))
        (exp_seconds now c.access_token_ttl_seconds)
  where
    current : find_current accounts (by_verdict c (valid (access_claims c a.id now))) ≡ ok a
    current =
        ap (λ (o : Option ℕ). find_current accounts (read_sub o)) reads
        ∙ ap only_active found
        ∙ ap (λ b. if b then ok a else raise (unauthorized "invalid_api_key")) active

    in_time :
        (b : Bool)
        → find_current accounts
            (by_verdict c (if b then valid (access_claims c a.id now) else expired))
          ≡ (if b then ok a else raise (unauthorized "token_expired"))
    in_time true = current
    in_time false = refl

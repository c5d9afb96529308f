-- ===== src/SignIn/IdToken.antt =====
-- The reading of an identity token: `_fetch_provider_keys` and `_verify_id_token` of
-- evren-backend/app/services/oauth_service.py. Every HTTP answer and PyJWT are parameters.
pub mod Verified
use Prim.Native.String.{String}
use text.Mathlib.Text.{◌==◌ as str_eq}
use ufuk_ai_agent.Prelude.{
  ℕ, Bool, true, false, ◌||◌, Option, none, some, or_default, List, [], ◌∷◌, if◌then◌else◌,
}
use ufuk_ai_agent.Prelude.Options.{Dict}
use ufuk_ai_agent.Errors.{ApiError, Outcome, ok, raise, crash, api_error}
use ufuk_ai_agent.Json.{
  Value, Items, Fields, null, boolean, int, float, string, array, object, nil, cons, get, as_dict,
  as_string,
}
use ufuk_ai_agent.Text.{lower_eq}
use ufuk_ai_agent.Upstream.{truthy, truthy_text}
use ufuk_ai_agent.SignIn.{OauthIdentity, oauth_failed}

infixl 5 ◌>>=◌ ◌>>◌
abbrev pub ◌>>=◌ : {A B : Type 0} → Outcome A → (A → Outcome B) → Outcome B
Outcome.ok a >>= f = f a
Outcome.raise e >>= f = raise e
Outcome.crash >>= f = crash

abbrev pub ◌>>◌ : {B : Type 0} → Outcome (Unit {0}) → Outcome B → Outcome B
m >> k = m >>= λ _. k

abbrev pub or_failed : {A : Type 0} → Option A → Outcome A
or_failed none = raise oauth_failed
or_failed (some a) = ok a

abbrev pub or_crash : {A : Type 0} → Option A → Outcome A
or_crash none = crash
or_crash (some a) = ok a

abbrev pub require : Bool → ApiError → Outcome (Unit {0})
require true e = ok tt
require false e = raise e

abbrev pub not_configured : ApiError
not_configured = api_error 503 "oauth_not_configured"

-- The answer of a token endpoint: its status, and the JSON value of its body, none where it has
-- none.
pub record Response : Type 0 where
  pub status_code : ℕ
  pub body : Option Value

-- `post` is a POST of a form to an endpoint, none where it raises. `fetch` is the body of the n-th
-- request for a set of keys, none where it raises or has a bad status. `kid_of` is the key id of a
-- token's header, none where it does not parse; `from_jwk` and `decode` are PyJWT's, none where they
-- raise; `decode` takes the key, the audience, the issuer and the token. `mint` signs Apple's
-- client secret, none where it raises.
pub record Outside (K : Type 0) : Type 0 where
  pub urlencode : Dict → String
  pub str : Value → String
  pub normalize_email : String → String
  pub post : String → Dict → Option Response
  pub fetch : String → ℕ → Option Value
  pub kid_of : String → Option (Option String)
  pub from_jwk : Fields → Option K
  pub decode : K → String → String → String → Option Fields
  pub mint : String → String → String → String → Option String

-- A key id that is no text matches no token; a list or a dictionary is no key of a dict.
abbrev pub kid_text : Value → Option (Option String)
kid_text (string s) = some (some s)
kid_text null = some none
kid_text (boolean b) = some none
kid_text (int n) = some none
kid_text (float f) = some none
kid_text (array vs) = none
kid_text (object fs) = none

module _ {K : Type 0} (o : Outside K) where
  -- `keys[kid] = from_jwk(jwk)` before the rest.
  abbrev pub put_key :
      Option K → Option (Option String) → Option (List (String × K)) → Option (List (String × K))
  put_key none kid rest = none
  put_key (some k) none rest = none
  put_key (some k) (some none) rest = rest
  put_key (some k) (some (some kid)) none = none
  put_key (some k) (some (some kid)) (some keys) = some ((kid, k) ∷ keys)

  abbrev pub put_jwk :
      Fields → Option Value → Option (List (String × K)) → Option (List (String × K))
  put_jwk jwk none rest = rest
  put_jwk jwk (some kid) rest = put_key (o.from_jwk jwk) (kid_text kid) rest

  -- The loop over the keys; none is an exception.
  unfoldable pub read_keys : Items → Option (List (String × K))
  read_keys nil = some []
  read_keys (cons (object jwk) jwks) =
      let rest = read_keys jwks in put_jwk jwk (truthy (get "kid" jwk)) rest
  read_keys (cons _ jwks) = none

  -- `for jwk in payload.get("keys", [])`
  abbrev pub keys_value : Option Value → Option (List (String × K))
  keys_value none = some []
  keys_value (some (array jwks)) = read_keys jwks
  keys_value (some (object Fields.end)) = some []
  keys_value (some (string String.[])) = some []
  keys_value (some _) = none

  -- `_fetch_provider_keys`, the n-th time.
  unfoldable pub fetch_provider_keys : String → ℕ → Option (List (String × K))
  unfolding read_keys
  fetch_provider_keys jwks_url n = elim (as_dict (o.fetch jwks_url n)) [
    | none ↦ none
    | some payload ↦ keys_value (get "keys" payload)
  ]

  -- `keys.get(kid)`; the last key of an id wins.
  unfoldable pub find_key : String → List (String × K) → Option K
  find_key kid [] = none
  find_key kid ((j, k) ∷ keys) = elim (find_key kid keys) [
    | some l ↦ some l
    | none ↦ if str_eq j kid then some k else none
  ]

  -- The key of an id, with a second request where the first set has it not.
  unfoldable pub signing_key : String → String → Outcome K
  unfolding find_key
  signing_key jwks_url kid = do
    keys ← or_crash (fetch_provider_keys jwks_url 0)
    elim (find_key kid keys) [
      | some k ↦ ok k
      | none ↦ or_crash (fetch_provider_keys jwks_url 1) >>= λ again. or_failed (find_key kid again)
    ]

  -- `str(claims.get("email_verified", "")).lower() in ("true", "1")`
  abbrev pub says_verified : Option Value → Bool
  says_verified none = false
  says_verified (some (boolean b)) = b
  says_verified (some v) = lower_eq (o.str v) "true" || lower_eq (o.str v) "1"

  -- The identity of claims that PyJWT accepted; it requires `sub`.
  unfoldable pub read_identity : Fields → Outcome OauthIdentity
  read_identity claims = do
    email ← or_failed (truthy_text (as_string (get "email" claims)))
    require (says_verified (get "email_verified" claims)) oauth_failed
    sub ← or_crash (get "sub" claims)
    ok (record {
      subject = o.str sub;
      email = o.normalize_email email;
      display_name = truthy_text (as_string (get "name" claims));
    })

  -- `_verify_id_token`
  unfoldable pub verify_id_token : String → String → String → String → Outcome OauthIdentity
  unfolding signing_key read_identity
  verify_id_token id_token jwks_url audience issuer = do
    kid ← or_failed (o.kid_of id_token)
    key ← signing_key jwks_url (or_default kid "")
    claims ← or_failed (o.decode key audience issuer id_token)
    read_identity claims

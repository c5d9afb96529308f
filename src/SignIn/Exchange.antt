-- ===== src/SignIn/Exchange.antt =====
-- The exchange of a code for an identity: `resolve_identity` of
-- evren-backend/app/services/oauth_service.py, and the providers that it offers. The HTTP calls
-- are given by their answers; PyJWT, `urlencode` and Python's `str` are parameters.
pub mod Resolution
use Prim.Native.String.{String, ◌++◌}
use text.Mathlib.Text.{◌==◌ as str_eq}
use ufuk_ai_agent.Prelude.{◌+◌, ◌==◌, Option, none, some, or_default, List, [], ◌∷◌, if◌then◌else◌}
use ufuk_ai_agent.Prelude.Options.{Dict}
use ufuk_ai_agent.Errors.{ApiError, Outcome, ok, raise, api_error}
use ufuk_ai_agent.Json.{get, as_dict, as_string}
use ufuk_ai_agent.Upstream.{truthy_text}
use ufuk_ai_agent.SignIn.{OauthIdentity, oauth_failed}
use ufuk_ai_agent.SignIn.IdToken.{
  Response, Outside, ◌>>=◌, ◌>>◌, or_failed, or_crash, require, not_configured, verify_id_token,
}

pub record Settings : Type 0 where
  pub google_client_id : Option String
  pub google_client_secret : Option String
  pub apple_client_id : Option String
  pub apple_client_secret : Option String
  pub apple_team_id : Option String
  pub apple_key_id : Option String
  pub apple_private_key : Option String
  pub oauth_redirect_uri : String

abbrev pub unknown_provider : ApiError
unknown_provider = api_error 400 "unknown_oauth_provider"

abbrev pub offer : Option String → String → List String → List String
offer none name rest = rest
offer (some _) name rest = name ∷ rest

-- The providers with a client id.
unfoldable pub configured_providers : Settings → List String
configured_providers c =
    offer (truthy_text c.google_client_id) "google"
      (offer (truthy_text c.apple_client_id) "apple" [])

module _ {K : Type 0} (o : Outside K) (c : Settings) where
  -- `build_authorize_url`
  unfoldable pub build_authorize_url : String → Outcome String
  build_authorize_url provider =
      if str_eq provider "google"
      then elim (truthy_text c.google_client_id) [
        | none ↦ raise not_configured
        | some id ↦ ok (
            "https://accounts.google.com/o/oauth2/v2/auth?"
            ++ o.urlencode (
                ("client_id", id)
                ∷ ("redirect_uri", c.oauth_redirect_uri)
                ∷ ("response_type", "code")
                ∷ ("scope", "openid email profile")
                ∷ ("prompt", "select_account")
                ∷ []))
      ]
      else if str_eq provider "apple"
      then elim (truthy_text c.apple_client_id) [
        | none ↦ raise not_configured
        | some id ↦ ok (
            "https://appleid.apple.com/auth/authorize?"
            ++ o.urlencode (
                ("client_id", id)
                ∷ ("redirect_uri", c.oauth_redirect_uri)
                ∷ ("response_type", "code")
                ∷ ("scope", "name email")
                ∷ ("response_mode", "query")
                ∷ ("prompt", "login")
                ∷ []))
      ]
      else raise unknown_provider

  -- The secret that is minted from the team, the key's id and the key.
  abbrev pub minted : Option String → Option String → Option String → Outcome String
  minted none key_id key = raise not_configured
  minted (some team) none key = raise not_configured
  minted (some team) (some key_id) none = raise not_configured
  minted (some team) (some key_id) (some key) =
      or_crash (o.mint team (or_default c.apple_client_id "") key_id key)

  -- `_apple_client_secret`
  unfoldable pub apple_client_secret : Outcome String
  apple_client_secret = elim (truthy_text c.apple_client_secret) [
    | some secret ↦ ok secret
    | none ↦
        minted (truthy_text c.apple_team_id) (truthy_text c.apple_key_id)
          (truthy_text c.apple_private_key)
  ]

-- After the answer of a token endpoint. A body that is no dictionary has no `get`.
unfoldable pub id_token_of : Response → Outcome String
id_token_of response = do
  require (response.status_code == 200) oauth_failed
  payload ← or_crash (as_dict response.body)
  or_failed (as_string (get "id_token" payload))

module _ {K : Type 0} (o : Outside K) where
  unfoldable pub exchange_code : String → Dict → String → String → String → Outcome OauthIdentity
  unfolding id_token_of verify_id_token
  exchange_code endpoint form jwks_url audience issuer = do
    response ← or_crash (o.post endpoint form)
    id_token ← id_token_of response
    verify_id_token o id_token jwks_url audience issuer

  abbrev pub form : Settings → String → String → String → Dict
  form c code id secret =
      ("code", code)
      ∷ ("client_id", id)
      ∷ ("client_secret", secret)
      ∷ ("redirect_uri", c.oauth_redirect_uri)
      ∷ ("grant_type", "authorization_code")
      ∷ []

  -- `_exchange_google_code`, with the id and the secret set.
  abbrev pub exchange_google_code :
      Settings → String → Option String → Option String → Outcome OauthIdentity
  exchange_google_code c code none secret = raise not_configured
  exchange_google_code c code (some id) none = raise not_configured
  exchange_google_code c code (some id) (some secret) =
      exchange_code "https://oauth2.googleapis.com/token" (form c code id secret)
        "https://www.googleapis.com/oauth2/v3/certs" id "https://accounts.google.com"

  -- `_exchange_apple_code`, with the id set.
  abbrev pub exchange_apple_code : Settings → String → Option String → Outcome OauthIdentity
  exchange_apple_code c code none = raise not_configured
  exchange_apple_code c code (some id) = apple_client_secret o c >>= λ secret.
      exchange_code "https://appleid.apple.com/auth/token" (form c code id secret)
        "https://appleid.apple.com/auth/keys" id "https://appleid.apple.com"

  unfoldable pub resolve_identity : Settings → String → String → Outcome OauthIdentity
  unfolding exchange_code apple_client_secret
  resolve_identity c provider code =
      if str_eq provider "google"
      then exchange_google_code c code (truthy_text c.google_client_id)
          (truthy_text c.google_client_secret)
      else if str_eq provider "apple"
      then exchange_apple_code c code (truthy_text c.apple_client_id)
      else raise unknown_provider

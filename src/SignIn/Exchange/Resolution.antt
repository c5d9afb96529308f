-- ===== src/SignIn/Exchange/Resolution.antt =====
-- What `resolve_identity` of oauth_service.py has checked where it returns an identity.
use Prim.Native.String.{String}
use text.Mathlib.Text.{◌==◌ as str_eq}
use ufuk_ai_agent.Prelude.{
  ◌≡◌, refl, inr, Bool, true, false, ◌==◌, Option, none, some, or_default, if◌then◌else◌,
}
use ufuk_ai_agent.Prelude.Options.{Dict}
use ufuk_ai_agent.Errors.{Outcome, ok, raise}
use ufuk_ai_agent.Json.{get, as_dict, as_string}
use ufuk_ai_agent.Upstream.{truthy_text}
use ufuk_ai_agent.SignIn.{OauthIdentity, oauth_failed}
use ufuk_ai_agent.SignIn.IdToken.{Response, Outside, or_failed, or_crash, require}
use ufuk_ai_agent.SignIn.Exchange.{
  Settings, unknown_provider, minted, apple_client_secret, id_token_of, exchange_code, form,
  exchange_google_code, exchange_apple_code, resolve_identity,
}
use ufuk_ai_agent.SignIn.IdToken.Verified.{
  Ends, bind-Ends, map-Ends, or_failed-Ends, or_crash-Ends, require-Ends, Verified,
  verify_id_token-Ends,
}

id_token_of-Ends : (response : Response) → Ends (λ _. Unit) (id_token_of response)
unfolding id_token_of
id_token_of-Ends response =
    bind-Ends (λ _. (response.status_code == 200) ≡ true) (λ _. Unit)
      (require (response.status_code == 200) oauth_failed) _
      (require-Ends (response.status_code == 200))
      (λ _ _.
        bind-Ends (λ payload. as_dict response.body ≡ some payload) (λ _. Unit)
          (or_crash (as_dict response.body)) _ (or_crash-Ends (as_dict response.body))
          (λ payload _.
            map-Ends (λ t. as_string (get "id_token" payload) ≡ some t) (λ _. Unit)
              (or_failed (as_string (get "id_token" payload)))
              (or_failed-Ends (as_string (get "id_token" payload))) (λ _ _. tt)))

module _ {K : Type 0} (o : Outside K) where
  exchange_code-Ends :
      (endpoint : String) (sent : Dict) (jwks_url audience issuer : String)
      → Ends
          (Verified o jwks_url audience issuer)
          (exchange_code o endpoint sent jwks_url audience issuer)
  unfolding exchange_code
  exchange_code-Ends endpoint sent jwks_url audience issuer =
      bind-Ends (λ r. o.post endpoint sent ≡ some r) (Verified o jwks_url audience issuer)
        (or_crash (o.post endpoint sent)) _ (or_crash-Ends (o.post endpoint sent))
        (λ r _.
          bind-Ends (λ _. Unit) (Verified o jwks_url audience issuer) (id_token_of r) _
            (id_token_of-Ends r) (λ t _. verify_id_token-Ends o t jwks_url audience issuer))

  module _ (c : Settings) where
    minted-Ends : (team key_id key : Option String) → Ends (λ _. Unit) (minted o c team key_id key)
    minted-Ends none key_id key = inr refl
    minted-Ends (some team) none key = inr refl
    minted-Ends (some team) (some key_id) none = inr refl
    minted-Ends (some team) (some key_id) (some key) =
        map-Ends (λ s. o.mint team (or_default c.apple_client_id "") key_id key ≡ some s)
          (λ _. Unit) (or_crash (o.mint team (or_default c.apple_client_id "") key_id key))
          (or_crash-Ends (o.mint team (or_default c.apple_client_id "") key_id key)) (λ _ _. tt)

    apple_client_secret-Ends : Ends (λ _. Unit) (apple_client_secret o c)
    unfolding apple_client_secret
    apple_client_secret-Ends = by_secret (truthy_text c.apple_client_secret)
      where
        by_secret :
            (s : Option String)
            → Ends
                (λ _. Unit)
                (elim s [
                  | some secret ↦ ok secret
                  | none ↦
                      minted o c
                        (truthy_text c.apple_team_id)
                        (truthy_text c.apple_key_id)
                        (truthy_text c.apple_private_key)
                ])
        by_secret (some secret) = tt
        by_secret none =
            minted-Ends (truthy_text c.apple_team_id) (truthy_text c.apple_key_id)
              (truthy_text c.apple_private_key)

    -- The token was issued by that provider for the client id of the settings.
    abbrev pub ByGoogle : OauthIdentity → Type 0
    ByGoogle identity =
        (id : String) × (truthy_text c.google_client_id ≡ some id)
        × Verified o "https://www.googleapis.com/oauth2/v3/certs" id "https://accounts.google.com"
            identity

    abbrev pub ByApple : OauthIdentity → Type 0
    ByApple identity =
        (id : String) × (truthy_text c.apple_client_id ≡ some id)
        × Verified o "https://appleid.apple.com/auth/keys" id "https://appleid.apple.com" identity

    -- What an exchange ends with, by the provider.
    abbrev pub Resolves : Bool → Bool → Outcome OauthIdentity → Type 0
    Resolves true apple m = Ends ByGoogle m
    Resolves false true m = Ends ByApple m
    Resolves false false m = m ≡ raise unknown_provider

    google-Ends :
        (code : String) (id secret : Option String)
        → truthy_text c.google_client_id ≡ id
        → Ends ByGoogle (exchange_google_code o c code id secret)
    google-Ends code none secret e = inr refl
    google-Ends code (some id) none e = inr refl
    google-Ends code (some id) (some secret) e =
        map-Ends
          (Verified o "https://www.googleapis.com/oauth2/v3/certs" id "https://accounts.google.com")
          ByGoogle (exchange_google_code o c code (some id) (some secret))
          (exchange_code-Ends "https://oauth2.googleapis.com/token" (form o c code id secret)
            "https://www.googleapis.com/oauth2/v3/certs" id "https://accounts.google.com")
          (λ _ v. (id, e, v))

    apple-Ends :
        (code : String) (id : Option String)
        → truthy_text c.apple_client_id ≡ id
        → Ends ByApple (exchange_apple_code o c code id)
    apple-Ends code none e = inr refl
    apple-Ends code (some id) e =
        bind-Ends (λ _. Unit) ByApple (apple_client_secret o c) _ apple_client_secret-Ends
          (λ secret _.
            map-Ends
              (Verified o "https://appleid.apple.com/auth/keys" id "https://appleid.apple.com")
              ByApple _
              (exchange_code-Ends "https://appleid.apple.com/auth/token" (form o c code id secret)
                "https://appleid.apple.com/auth/keys" id "https://appleid.apple.com")
              (λ _ v. (id, e, v)))

    -- How the exchange of a code ends. An identity comes only of Google or Apple, with that
    -- provider's client id set, and of a token that was decoded for this client id as audience and
    -- the provider's issuer, under a key of the token's key id in a set fetched from the provider;
    -- its claims have an address, which they say is verified and which the identity has
    -- normalised, and a subject. An `ApiError` is `oauth_failed` or `oauth_not_configured` for
    -- these two providers, and `unknown_oauth_provider` is the end for any other.
    pub resolve_identity-Resolves :
        (provider code : String)
        → Resolves
            (str_eq provider "google")
            (str_eq provider "apple")
            (resolve_identity o c provider code)
    unfolding resolve_identity
    resolve_identity-Resolves provider code =
        by_provider (str_eq provider "google") (str_eq provider "apple")
      where
        by_provider :
            (google apple : Bool)
            → Resolves google apple (
                if google
                then exchange_google_code o c code
                    (truthy_text c.google_client_id)
                    (truthy_text c.google_client_secret)
                else if apple
                then exchange_apple_code o c code (truthy_text c.apple_client_id)
                else raise unknown_provider)
        by_provider true apple =
            google-Ends code (truthy_text c.google_client_id) (truthy_text c.google_client_secret)
              refl
        by_provider false true = apple-Ends code (truthy_text c.apple_client_id) refl
        by_provider false false = refl

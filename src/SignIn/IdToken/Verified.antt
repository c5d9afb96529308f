-- ===== src/SignIn/IdToken/Verified.antt =====
-- What `_verify_id_token` of evren-backend/app/services/oauth_service.py has checked where it
-- returns.
use Prim.Native.String.{String}
use ufuk_ai_agent.Prelude.{
  ℕ, ◌≡◌, refl, inl, inr, ◌⊎◌, Bool, true, false, Option, none, some, or_default, List,
}
use ufuk_ai_agent.Errors.{Outcome, ok}
use ufuk_ai_agent.Json.{Value, Fields, get, as_string}
use ufuk_ai_agent.Upstream.{truthy_text}
use ufuk_ai_agent.SignIn.{OauthIdentity, oauth_failed}
use ufuk_ai_agent.SignIn.IdToken.{
  Outside, ◌>>=◌, or_failed, or_crash, require, not_configured, fetch_provider_keys, find_key,
  signing_key, says_verified, read_identity, verify_id_token,
}

-- A value that holds of what is returned; an `ApiError` is one of two.
abbrev pub Ends : {A : Type 0} → (A → Type 0) → Outcome A → Type 0
Ends W (Outcome.ok a) = W a
Ends W (Outcome.raise e) = (e ≡ oauth_failed) ⊎ (e ≡ not_configured)
Ends W Outcome.crash = Unit

pub bind-Ends :
    {A B : Type 0} (W : A → Type 0) (V : B → Type 0) (m : Outcome A) (f : A → Outcome B)
    → Ends W m
    → ((a : A) → W a → Ends V (f a))
    → Ends V (m >>= f)
bind-Ends W V (Outcome.ok a) f h k = k a h
bind-Ends W V (Outcome.raise e) f h k = h
bind-Ends W V Outcome.crash f h k = tt

-- The same outcome with a weaker predicate.
pub map-Ends :
    {A : Type 0} (W V : A → Type 0) (m : Outcome A) → Ends W m → ((a : A) → W a → V a) → Ends V m
map-Ends W V (Outcome.ok a) h k = k a h
map-Ends W V (Outcome.raise e) h k = h
map-Ends W V Outcome.crash h k = tt

pub or_failed-Ends : {A : Type 0} (o : Option A) → Ends (λ a. o ≡ some a) (or_failed o)
or_failed-Ends none = inl refl
or_failed-Ends (some a) = refl

pub or_crash-Ends : {A : Type 0} (o : Option A) → Ends (λ a. o ≡ some a) (or_crash o)
or_crash-Ends none = tt
or_crash-Ends (some a) = refl

pub require-Ends : (b : Bool) → Ends (λ _. b ≡ true) (require b oauth_failed)
require-Ends true = refl
require-Ends false = inl refl

module _ {K : Type 0} (o : Outside K) where
  -- A key of that id in one of the two sets that were fetched.
  abbrev pub Published : String → String → K → Type 0
  Published jwks_url kid key =
      (n : ℕ) × ((n ≡ 0) ⊎ (n ≡ 1))
      × (keys : List (String × K)) × (fetch_provider_keys o jwks_url n ≡ some keys)
      × (find_key o kid keys ≡ some key)

  signing_key-Ends :
      (jwks_url kid : String) → Ends (Published jwks_url kid) (signing_key o jwks_url kid)
  unfolding signing_key
  signing_key-Ends jwks_url kid =
      bind-Ends (λ keys. fetch_provider_keys o jwks_url 0 ≡ some keys) (Published jwks_url kid)
        (or_crash (fetch_provider_keys o jwks_url 0)) _
        (or_crash-Ends (fetch_provider_keys o jwks_url 0))
        (λ keys e. by_key keys e (find_key o kid keys) refl)
    where
      by_key :
          (keys : List (String × K))
          → fetch_provider_keys o jwks_url 0 ≡ some keys
          → (k : Option K) → find_key o kid keys ≡ k
          → Ends (Published jwks_url kid) (elim k [
            | some k ↦ ok k
            | none ↦ or_crash (fetch_provider_keys o jwks_url 1) >>= λ again.
                or_failed (find_key o kid again)
          ])
      by_key keys e (some k) f = (0, inl refl, keys, e, f)
      by_key keys e none f =
          bind-Ends (λ again. fetch_provider_keys o jwks_url 1 ≡ some again)
            (Published jwks_url kid) (or_crash (fetch_provider_keys o jwks_url 1)) _
            (or_crash-Ends (fetch_provider_keys o jwks_url 1))
            (λ again g. found again g (find_key o kid again) refl)
        where
          found :
              (again : List (String × K))
              → fetch_provider_keys o jwks_url 1 ≡ some again
              → (k : Option K) → find_key o kid again ≡ k
              → Ends (Published jwks_url kid) (or_failed k)
          found again g none h = inl refl
          found again g (some k) h = (1, inr refl, again, g, h)

  -- The claims give an address that the provider has verified, and a subject.
  pub record Identified (claims : Fields) (identity : OauthIdentity) : Type 0 where
    pub email : String
    pub sub : Value
    pub shares : truthy_text (as_string (get "email" claims)) ≡ some email
    pub verified : says_verified o (get "email_verified" claims) ≡ true
    pub subject : get "sub" claims ≡ some sub
    pub address : identity.email ≡ o.normalize_email email
    pub is_subject : identity.subject ≡ o.str sub

  read_identity-Ends : (claims : Fields) → Ends (Identified claims) (read_identity o claims)
  unfolding read_identity
  read_identity-Ends claims =
      bind-Ends (λ email. truthy_text (as_string (get "email" claims)) ≡ some email)
        (Identified claims) (or_failed (truthy_text (as_string (get "email" claims)))) _
        (or_failed-Ends (truthy_text (as_string (get "email" claims))))
        (λ email e.
          bind-Ends (λ _. says_verified o (get "email_verified" claims) ≡ true) (Identified claims)
            (require (says_verified o (get "email_verified" claims)) oauth_failed) _
            (require-Ends (says_verified o (get "email_verified" claims)))
            (λ _ v.
              bind-Ends (λ sub. get "sub" claims ≡ some sub) (Identified claims)
                (or_crash (get "sub" claims)) _ (or_crash-Ends (get "sub" claims))
                (λ sub s. record {
                  email = email;
                  sub = sub;
                  shares = e;
                  verified = v;
                  subject = s;
                  address = refl;
                  is_subject = refl;
                })))

  -- A token that PyJWT accepts for the audience and the issuer, under a published key of its id.
  pub record Verified (jwks_url audience issuer : String) (identity : OauthIdentity) : Type 0 where
    pub id_token : String
    pub kid : Option String
    pub key : K
    pub claims : Fields
    pub header : o.kid_of id_token ≡ some kid
    pub published : Published jwks_url (or_default kid "") key
    pub decoded : o.decode key audience issuer id_token ≡ some claims
    pub identified : Identified claims identity

  pub verify_id_token-Ends :
      (id_token jwks_url audience issuer : String)
      → Ends
          (Verified jwks_url audience issuer)
          (verify_id_token o id_token jwks_url audience issuer)
  unfolding verify_id_token
  verify_id_token-Ends id_token jwks_url audience issuer =
      bind-Ends (λ kid. o.kid_of id_token ≡ some kid) (Verified jwks_url audience issuer)
        (or_failed (o.kid_of id_token)) _ (or_failed-Ends (o.kid_of id_token))
        (λ kid h.
          bind-Ends (Published jwks_url (or_default kid "")) (Verified jwks_url audience issuer)
            (signing_key o jwks_url (or_default kid "")) _
            (signing_key-Ends jwks_url (or_default kid ""))
            (λ key p.
              bind-Ends (λ claims. o.decode key audience issuer id_token ≡ some claims)
                (Verified jwks_url audience issuer)
                (or_failed (o.decode key audience issuer id_token)) _
                (or_failed-Ends (o.decode key audience issuer id_token))
                (λ claims d.
                  map-Ends (Identified claims) (Verified jwks_url audience issuer)
                    (read_identity o claims) (read_identity-Ends claims)
                    (λ identity i. record {
                      id_token = id_token;
                      kid = kid;
                      key = key;
                      claims = claims;
                      header = h;
                      published = p;
                      decoded = d;
                      identified = i;
                    }))))

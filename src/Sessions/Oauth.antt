-- ===== src/Sessions/Oauth.antt =====
-- How `oauth_login` of evren-backend/app/routers/auth.py ends, with `resolve_identity` as its
-- exchange.
use Prim.Native.String.{String}
use text.Mathlib.Text.{◌==◌ as str_eq}
use ufuk_ai_agent.Prelude.{
  ◌+◌, ◌≡◌, ap, subst, refl, inl, inr, ◌⊎◌, Bool-cases, Bool, true, false, Option, none, some, [],
  ◌∷◌, ◌++◌, any,
}
use ufuk_ai_agent.Prelude.Int.{ℤ}
use ufuk_ai_agent.Errors.{Outcome, ok, raise}
use ufuk_ai_agent.Action.{◌>>=◌}
use ufuk_ai_agent.Redis.{Redis, Key}
use ufuk_ai_agent.Limits.Rate.{check_rate_limit}
use ufuk_ai_agent.Auth.{RefreshToken, refresh_token_ttl, refresh_row, has_hash, issue_tokens}
use ufuk_ai_agent.SignIn.{Account, Users, OauthIdentity, oauth_failed, find_or_create_user}
use ufuk_ai_agent.SignIn.Identities.{Identifies, find_or_create_user-Identifies}
use ufuk_ai_agent.SignIn.IdToken.{Outside}
use ufuk_ai_agent.SignIn.Exchange.{Settings, resolve_identity}
use ufuk_ai_agent.SignIn.Exchange.Resolution.{
  ByGoogle, ByApple, Resolves, resolve_identity-Resolves,
}
use ufuk_ai_agent.Access.{create_access_token}
use ufuk_ai_agent.Sessions.{
  App, State, Draws, TokenResponse, rate_limited, login_ip_limit, login_ip_window, limit, limited,
  issue, on_users, resolved, oauth_login,
}

-- The provider is Google or Apple, and vouches for the identity.
abbrev pub Vouched : {K : Type 0} → Outside K → Settings → String → OauthIdentity → Type 0
Vouched o c provider identity =
    ((str_eq provider "google" ≡ true) × ByGoogle o c identity)
    ⊎ ((str_eq provider "apple" ≡ true) × ByApple o c identity)

Resolves-Vouched :
    {K : Type 0} (o : Outside K) (c : Settings) (provider : String) (identity : OauthIdentity)
    → Resolves o c (str_eq provider "google") (str_eq provider "apple") (ok identity)
    → Vouched o c provider identity
Resolves-Vouched o c provider identity = go (str_eq provider "google") (str_eq provider "apple")
  where
    go :
        (google apple : Bool)
        → Resolves o c google apple (ok identity)
        → ((google ≡ true) × ByGoogle o c identity) ⊎ ((apple ≡ true) × ByApple o c identity)
    go true apple h = inl (refl, h)
    go false true h = inr (refl, h)
    go false false h = cc

module _ (R : Redis) (app : App) (d : Draws) {K : Type 0} (o : Outside K) (c : Settings)
    (provider code : String) (display_name : Option String) (w : State R) where
  abbrev pub added : Account → RefreshToken
  added account =
      refresh_row d.fresh account.id (app.sha256_hex d.token) (d.later + refresh_token_ttl) d.later

  -- Tokens for the account of an identity that the provider vouches for, and one new row.
  pub record Joined (response : TokenResponse) (w' : State R) : Type 0 where
    pub identity : OauthIdentity
    pub account : Account
    pub exchanged : resolve_identity o c provider code ≡ ok identity
    pub vouched : Vouched o c provider identity
    pub joined :
        find_or_create_user app.setup d.times provider identity display_name true w.users
        ≡ (ok account, w'.users)
    pub identified : Identifies app.setup d.times provider identity w.users (ok account, w'.users)
    pub token :
        response.access_token ≡ (create_access_token app.jwt app.settings account.id d.now).0
    pub secret : response.refresh_token ≡ d.token
    pub row : w'.refresh_tokens ≡ w.refresh_tokens ++ added account ∷ []
    pub email_tokens : w'.email_tokens ≡ w.email_tokens

  -- No token is added.
  pub record Tokenless (w' : State R) : Type 0 where
    pub refresh_tokens : w'.refresh_tokens ≡ w.refresh_tokens
    pub email_tokens : w'.email_tokens ≡ w.email_tokens

  -- By how the sign-in ended.
  abbrev pub Joins : Outcome TokenResponse × State R → Type 0
  Joins (Outcome.ok response, w') = Joined response w'
  Joins (Outcome.raise e, w') =
      Tokenless w'
      × (w'.users ≡ w.users)
      × (((t : ℤ) × (e ≡ rate_limited t))
          ⊎ ((resolve_identity o c provider code ≡ raise e) ⊎ (e ≡ oauth_failed)))
  Joins (Outcome.crash, w') = Tokenless w'

  issue-Joins :
      (identity : OauthIdentity) (account : Account) (v : State R)
      → resolve_identity o c provider code ≡ ok identity
      → Vouched o c provider identity
      → find_or_create_user app.setup d.times provider identity display_name true w.users
        ≡ (ok account, v.users)
      → Tokenless v
      → Joins (issue R app d account.id v)
  unfolding issue issue_tokens
  issue-Joins identity account v e vouched joined t =
      elim (Bool-cases (any (has_hash (app.sha256_hex d.token)) v.refresh_tokens)) [
        | inl taken ↦
            rw (issue, taken)
              (record {
                refresh_tokens = rw (issue_tokens, taken) t.refresh_tokens;
                email_tokens = t.email_tokens;
              })
        | inr new ↦
            rw (issue, new)
              (record {
                identity = identity;
                account = account;
                exchanged = e;
                vouched = vouched;
                joined = joined;
                identified = subst (Identifies app.setup d.times provider identity w.users) joined (
                    find_or_create_user-Identifies app.setup d.times provider identity w.users
                      display_name true);
                token = refl;
                secret = refl;
                row = rw (issue_tokens, new) (ap (λ rs. rs ++ added account ∷ []) t.refresh_tokens);
                email_tokens = t.email_tokens;
              })
      ]

  -- `find_or_create_user` on the tables of the whole state.
  join-Joins :
      (identity : OauthIdentity) (s : R.Store)
      → resolve_identity o c provider code ≡ ok identity
      → Vouched o c provider identity
      → Joins (
          (on_users R (find_or_create_user app.setup d.times provider identity display_name true)
              >>= λ a. issue R app d a.id)
            (record w { store = s }))
  join-Joins identity s e vouched =
      go (find_or_create_user app.setup d.times provider identity display_name true w.users) refl
    where
      go :
          (r : Outcome Account × Users)
          → find_or_create_user app.setup d.times provider identity display_name true w.users ≡ r
          → Joins ((on_users R (λ _. r) >>= λ a. issue R app d a.id) (record w { store = s }))
      go (Outcome.ok a, users) f =
          issue-Joins identity a (record w { store = s; users = users }) e vouched f
            (record { refresh_tokens = refl; email_tokens = refl })
      go (Outcome.raise x, users) f =
          let (failed, same) = subst (Identifies app.setup d.times provider identity w.users) f (
            find_or_create_user-Identifies app.setup d.times provider identity w.users display_name
              true) in
          (record { refresh_tokens = refl; email_tokens = refl }, same, inr (inr failed))
      go (Outcome.crash, users) f = record { refresh_tokens = refl; email_tokens = refl }

  exchange-Joins :
      (s : R.Store)
      → Joins (
          (resolved R app d (resolve_identity o c provider code) >>= λ identity.
          on_users R (find_or_create_user app.setup d.times provider identity display_name true)
          >>= λ a. issue R app d a.id)
            (record w { store = s }))
  exchange-Joins s = go (resolve_identity o c provider code) refl
    where
      go :
          (r : Outcome OauthIdentity)
          → resolve_identity o c provider code ≡ r
          → Joins (
              (resolved R app d r >>= λ identity.
              on_users R (find_or_create_user app.setup d.times provider identity display_name true)
              >>= λ a. issue R app d a.id)
                (record w { store = s }))
      go (Outcome.ok identity) e = join-Joins identity s e (
          Resolves-Vouched o c provider identity (
            subst (Resolves o c (str_eq provider "google") (str_eq provider "apple")) e
              (resolve_identity-Resolves o c provider code)))
      go (Outcome.raise x) e =
          (record { refresh_tokens = refl; email_tokens = refl }, refl, inr (inl e))
      go Outcome.crash e = record { refresh_tokens = refl; email_tokens = refl }

  -- How a sign-in with a provider's code ends, the exchange of the code included. With tokens: the
  -- exchange gave an identity, the provider is Google or Apple and vouches for it,
  -- `find_or_create_user` returned the account that the tokens are for and left the accounts as
  -- they are, so that this account is bound to the identity, active and either known by the
  -- identity or its address before or new, the access token is the one created for its id, and one
  -- refresh token is added, with the new token's digest and for that account. With an error no
  -- token is added and no account changes, and it is `rate_limited`, the exchange's own error or
  -- `oauth_failed`. With any other exception no token is added.
  pub oauth_login-Joins :
      (ip : String)
      → Joins (oauth_login R app d ip provider (resolve_identity o c provider code) display_name w)
  unfolding oauth_login limit
  oauth_login-Joins ip =
      by_answer (check_rate_limit R w.store (Key.oauth_ip ip) login_ip_limit login_ip_window).0
    where
      store : R.Store
      store = (check_rate_limit R w.store (Key.oauth_ip ip) login_ip_limit login_ip_window).1

      by_answer :
          (answer : Option ℤ)
          → Joins (
              (limited R answer store >>= λ _.
              resolved R app d (resolve_identity o c provider code) >>= λ identity.
              on_users R (find_or_create_user app.setup d.times provider identity display_name true)
              >>= λ a. issue R app d a.id)
                w)
      by_answer none = exchange-Joins store
      by_answer (some t) =
          (record { refresh_tokens = refl; email_tokens = refl }, refl, inl (t, refl))

-- ===== src/Sessions/Login.antt =====
-- How `login` ends, and what it changes.
use Prim.Native.String.{String}
use ufuk_ai_agent.Prelude.{
  ◌+◌, ◌≡◌, ◌≢◌, ◌∙◌, sym, ap, subst, refl, inl, inr, ◌⊎◌, Bool-cases, Bool, true, false, not,
  or_default, Option, none, some, [], ◌∷◌, ◌++◌, any, arith, if◌then◌else◌,
}
use ufuk_ai_agent.Prelude.Int.{ℤ, pos, ◌+ℤ◌, ltb_ℤ, max_ℤ}
use ufuk_ai_agent.Errors.{Outcome, raise}
use ufuk_ai_agent.Action.{◌>>◌}
use ufuk_ai_agent.Redis.{Redis, Key, IsLawful}
use ufuk_ai_agent.Limits.Rate.{check_rate_limit, register_failure, retry_after_if_blocked}
use ufuk_ai_agent.Limits.Rate.Window.{get-check_rate_limit_ne, register_failure_count}
use ufuk_ai_agent.Auth.{refresh_token_ttl, refresh_row, has_hash, issue_tokens}
use ufuk_ai_agent.SignIn.{Account, authenticate_user}
use ufuk_ai_agent.SignIn.Lookup.{Authenticates, authenticate_user-Authenticates}
use ufuk_ai_agent.Access.{create_access_token}
use ufuk_ai_agent.Sessions.{
  App, State, Draws, TokenResponse, rate_limited, invalid_credentials, login_account_failures,
  login_account_window, login_ip_limit, login_ip_window, limit, limited, issue, account_key,
  sign_in, blocked_or, unless_blocked, login,
}

-- Whether a counter of failures, none where there is none, is at the limit.
abbrev pub is_blocked : Option ℤ → Bool
is_blocked none = false
is_blocked (some count) = not (ltb_ℤ count (pos login_account_failures))

module _ (R : Redis) (app : App) (d : Draws) (email password : String) (w : State R) where
  abbrev counter : Key
  counter = account_key app email

  abbrev failures : R.Store → Option ℤ
  failures s = R.get s counter

  -- The tables are those before.
  pub record Untouched (w' : State R) : Type 0 where
    pub users : w'.users ≡ w.users
    pub refresh_tokens : w'.refresh_tokens ≡ w.refresh_tokens
    pub email_tokens : w'.email_tokens ≡ w.email_tokens

  -- A pair of tokens for an account whose password was checked, and one new row.
  pub record SignedIn (response : TokenResponse) (w' : State R) : Type 0 where
    pub account : Account
    pub checked : Authenticates app.setup w.users.accounts email password (some account)
    pub token :
        response.access_token ≡ (create_access_token app.jwt app.settings account.id d.now).0
    pub secret : response.refresh_token ≡ d.token
    pub row :
        w'.refresh_tokens
        ≡ w.refresh_tokens
          ++ refresh_row d.fresh account.id
              (app.sha256_hex d.token)
              (d.later + refresh_token_ttl)
              d.later
            ∷ []
    pub users : w'.users ≡ w.users
    pub email_tokens : w'.email_tokens ≡ w.email_tokens
    pub uncounted : failures w'.store ≡ failures w.store

  -- By how the sign-in ended. A refusal of the password counts one failure.
  abbrev pub SignsIn : Outcome TokenResponse × State R → Type 0
  SignsIn (Outcome.ok response, w') = SignedIn response w' × (is_blocked (failures w.store) ≡ false)
  SignsIn (Outcome.raise e, w') =
      Untouched w'
      × (((e ≡ invalid_credentials)
            × Authenticates app.setup w.users.accounts email password none
            × (is_blocked (failures w.store) ≡ false)
            × (failures w'.store ≡ some (or_default (failures w.store) (pos 0) +ℤ pos 1)))
          ⊎ (((t : ℤ) × (e ≡ rate_limited t)) × (failures w'.store ≡ failures w.store)))
  SignsIn (Outcome.crash, w') =
      Untouched w'
      × (is_blocked (failures w.store) ≡ false)
      × (failures w'.store ≡ failures w.store)

-- The key of an address is no key of a client.
ip_ne : (k i : String) → Key.login_account k ≢ Key.login_ip i
ip_ne k i e = cc

module _ (R : Redis) (L : IsLawful R) (app : App) (d : Draws) (email password : String) where
  issue-SignsIn :
      (w : State R) (a : Account)
      → Authenticates app.setup w.users.accounts email password (some a)
      → is_blocked (R.get w.store (account_key app email)) ≡ false
      → SignsIn R app d email password w (issue R app d a.id w)
  unfolding issue issue_tokens
  issue-SignsIn w a checked free =
      elim (Bool-cases (any (has_hash (app.sha256_hex d.token)) w.refresh_tokens)) [
        | inl taken ↦
            rw (issue, taken)
              (
                record {
                  users = refl;
                  refresh_tokens = rw (issue_tokens, taken) refl;
                  email_tokens = refl;
                },
                free,
                refl,
              )
        | inr new ↦
            rw (issue, new)
              (
                record {
                  account = a;
                  checked = checked;
                  token = refl;
                  secret = refl;
                  row = rw (issue_tokens, new) refl;
                  users = refl;
                  email_tokens = refl;
                  uncounted = refl;
                },
                free,
              )
      ]

  refused-SignsIn :
      (w : State R)
      → Authenticates app.setup w.users.accounts email password none
      → is_blocked (R.get w.store (account_key app email)) ≡ false
      → SignsIn R app d email password w (
        raise invalid_credentials,
        record w {
          store = register_failure R w.store (account_key app email) login_account_window;
        },
      )
  refused-SignsIn w wrong free = (
    record { users = refl; refresh_tokens = refl; email_tokens = refl },
    inl (
      refl,
      wrong,
      free,
      register_failure_count R L (account_key app email) login_account_failures login_account_window
          (omega arith) w.store,
    ),
  )

  sign_in-SignsIn :
      (w : State R)
      → is_blocked (R.get w.store (account_key app email)) ≡ false
      → SignsIn R app d email password w (sign_in R app d email password w)
  unfolding sign_in
  sign_in-SignsIn w free =
      by_account (authenticate_user app.setup w.users.accounts email password) refl
    where
      known :
          (o : Option Account)
          → authenticate_user app.setup w.users.accounts email password ≡ o
          → Authenticates app.setup w.users.accounts email password o
      known o e =
          subst (Authenticates app.setup w.users.accounts email password) e
            (authenticate_user-Authenticates app.setup w.users.accounts email password)

      by_account :
          (o : Option Account)
          → authenticate_user app.setup w.users.accounts email password ≡ o
          → SignsIn R app d email password w (elim o [
            | none ↦ (
              raise invalid_credentials,
              record w {
                store = register_failure R w.store (account_key app email) login_account_window;
              },
            )
            | some a ↦ issue R app d a.id w
          ])
      by_account none e = refused-SignsIn w (known none e) free
      by_account (some a) e = issue-SignsIn w a (known (some a) e) free

  unless_blocked-SignsIn :
      (w : State R) → SignsIn R app d email password w (unless_blocked R app d email password w)
  unfolding unless_blocked retry_after_if_blocked
  unless_blocked-SignsIn w = by_count (R.get w.store key) refl
    where
      key : Key
      key = account_key app email

      by_test :
          (count : ℤ) (b : Bool)
          → ltb_ℤ count (pos login_account_failures) ≡ b
          → R.get w.store key ≡ some count
          → SignsIn R app d email password w (
              blocked_or R app d
                (if b then none else some (max_ℤ (R.ttl w.store key) (pos 1)))
                email
                password
                w)
      by_test count true below e = sign_in-SignsIn w (ap (is_blocked) e ∙ ap not below)
      by_test count false above e = (
        record { users = refl; refresh_tokens = refl; email_tokens = refl },
        inr ((max_ℤ (R.ttl w.store key) (pos 1), refl), refl),
      )

      by_count :
          (o : Option ℤ)
          → R.get w.store key ≡ o
          → let wait : Option ℤ = elim o [
            | none ↦ none
            | some count ↦
                if ltb_ℤ count (pos login_account_failures)
                then none
                else some (max_ℤ (R.ttl w.store key) (pos 1))
          ] in
            SignsIn R app d email password w (blocked_or R app d wait email password w)
      by_count none e = sign_in-SignsIn w (ap (is_blocked) e)
      by_count (some count) e = by_test count (ltb_ℤ count (pos login_account_failures)) refl e

  -- What holds from the state after the limit of the client holds from the one before it.
  from_limited :
      (w : State R) (s : R.Store)
      → R.get s (account_key app email) ≡ R.get w.store (account_key app email)
      → (r : Outcome TokenResponse × State R)
      → SignsIn R app d email password (record w { store = s }) r
      → SignsIn R app d email password w r
  from_limited w s e (Outcome.ok response, w') (h, free) = (
    record {
      account = h.account;
      checked = h.checked;
      token = h.token;
      secret = h.secret;
      row = h.row;
      users = h.users;
      email_tokens = h.email_tokens;
      uncounted = h.uncounted ∙ e;
    },
    ap (is_blocked) (sym e) ∙ free,
  )
  from_limited w s e (Outcome.raise x, w') (u, inl (invalid, wrong, free, counted)) = (
    record { users = u.users; refresh_tokens = u.refresh_tokens; email_tokens = u.email_tokens },
    inl (
      invalid,
      wrong,
      ap (is_blocked) (sym e) ∙ free,
      counted ∙ ap (λ (o : Option ℤ). some (or_default o (pos 0) +ℤ pos 1)) e,
    ),
  )
  from_limited w s e (Outcome.raise x, w') (u, inr (limited, same)) = (
    record { users = u.users; refresh_tokens = u.refresh_tokens; email_tokens = u.email_tokens },
    inr (limited, same ∙ e),
  )
  from_limited w s e (Outcome.crash, w') (u, free, same) = (
    record { users = u.users; refresh_tokens = u.refresh_tokens; email_tokens = u.email_tokens },
    ap (is_blocked) (sym e) ∙ free,
    same ∙ e,
  )

  -- How a login ends. With tokens: the address's failures are below five, the account is a row
  -- with the address as normalised, is active, and has a hash that the password passes, one
  -- refresh token with the new token's digest is added for it, the access token is the one created
  -- for its id, and nothing else in the tables changes, nor the count of failures. With an error
  -- the tables are unchanged: either the password was refused, because no row has the address or
  -- one that has it is inactive, has no hash or has one that the password does not pass, the
  -- failures were below five and are one more, or it is `rate_limited` and the failures stay. With
  -- any other exception the tables and the failures are as before.
  pub login-SignsIn :
      (ip : String) (w : State R)
      → SignsIn R app d email password w (login R app d ip email password w)
  unfolding login limit
  login-SignsIn ip w =
      by_answer (check_rate_limit R w.store (Key.login_ip ip) login_ip_limit login_ip_window).0
    where
      same :
          R.get
            (check_rate_limit R w.store (Key.login_ip ip) login_ip_limit login_ip_window).1
            (account_key app email)
          ≡ R.get w.store (account_key app email)
      same =
          get-check_rate_limit_ne R L (Key.login_ip ip) login_ip_limit login_ip_window (omega arith)
            w.store (account_key app email) (ip_ne _ ip)

      by_answer :
          (answer : Option ℤ)
          → SignsIn R app d email password w (
              (limited R answer
                    (check_rate_limit R w.store (Key.login_ip ip) login_ip_limit login_ip_window).1
                  >> unless_blocked R app d email password)
                w)
      by_answer none = from_limited w _ same _ (unless_blocked-SignsIn _)
      by_answer (some t) = (
        record { users = refl; refresh_tokens = refl; email_tokens = refl },
        inr ((t, refl), same),
      )

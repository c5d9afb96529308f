-- ===== src/Sessions.antt =====
-- evren-backend/app/routers/auth.py: sign-up, sign-in, the refresh of a session and sign-out, with their
-- limits, and `request_password_reset` of evren-backend/app/services/auth_service.py. The sending of an
-- e-mail is I/O; new tokens, ids, hashes and clock readings are arguments.
pub mod Login
pub mod Guesses
pub mod Oauth
use Prim.Native.String.{String}
use ufuk_ai_agent.Prelude.{ℕ, ◌*◌, Bool, true, false, Option, none, some, List, map, if◌then◌else◌}
use ufuk_ai_agent.Prelude.Int.{ℤ, pos, pos_part}
use ufuk_ai_agent.Errors.{ApiError, Outcome, ok, raise, crash, api_error}
use ufuk_ai_agent.Action.{Action, pure, ◌>>=◌, ◌>>◌}
use ufuk_ai_agent.Redis.{Redis, Key}
use ufuk_ai_agent.Limits.Rate.{check_rate_limit, register_failure, retry_after_if_blocked}
use ufuk_ai_agent.Auth.{
  User, RefreshToken, EmailToken, Purpose, verify_email, reset_password, issue_tokens,
  rotate_refresh_token, revoke_refresh_token, create_email_token,
}
use ufuk_ai_agent.SignIn as Accounts
use ufuk_ai_agent.SignIn.{
  Account, OauthIdentity, Users, register_user, authenticate_user, find_or_create_user,
  get_user_by_email,
}
use ufuk_ai_agent.Access.{Jwt, Settings, create_access_token}

abbrev pub terms_version : String
terms_version = "2026-10"

abbrev pub register_ip_limit : ℕ
register_ip_limit = 10

abbrev pub register_ip_window : ℕ
register_ip_window = 3600

abbrev pub login_ip_limit : ℕ
login_ip_limit = 30

abbrev pub login_ip_window : ℕ
login_ip_window = 60

abbrev pub login_account_failures : ℕ
login_account_failures = 5

abbrev pub login_account_window : ℕ
login_account_window = 300

-- The reply of redis is one second at least.
abbrev pub rate_limited : ℤ → ApiError
rate_limited t = record (api_error 429 "rate_limited") { retry_after = some (pos_part t) }

abbrev pub invalid_credentials : ApiError
invalid_credentials = api_error 401 "invalid_credentials"

-- `TokenResponse`
pub record TokenResponse : Type 0 where
  pub access_token : String
  pub refresh_token : String
  pub expires_in : ℕ

-- The application's state: settings, PyJWT, and the digest of tokens.
pub record App : Type 0 where
  pub setup : Accounts.Setup
  pub settings : Settings
  pub jwt : Jwt
  pub sha256_hex : String → String

-- The redis store and the tables that these handlers read and change.
pub record State (R : Redis) : Type 0 where
  pub store : R.Store
  pub users : Users
  pub refresh_tokens : List RefreshToken
  pub email_tokens : List EmailToken

-- What a handler draws: `token` is a new token, `fresh` its row's id, `hash` a new password's hash.
pub record Draws : Type 0 where
  pub times : Accounts.Times
  pub token : String
  pub fresh : ℕ
  pub now : ℕ
  pub later : ℕ
  pub hash : String

-- The columns of an account that the rotation reads.
abbrev pub as_user : Account → User
as_user a = record {
  id = a.id;
  password_hash = a.password_hash;
  is_active = a.is_active;
  email_verified = a.email_verified;
}

abbrev pub account_key : App → String → Key
account_key app email = Key.login_account (app.sha256_hex (app.setup.lower email))

module _ (R : Redis) where
  abbrev pub on_users : {A : Type 0} → Action Users A → Action (State R) A
  on_users m w = let (r, users) = m w.users in (r, record w { users = users })

  -- The answer of `check_rate_limit`, and the store it left.
  abbrev pub limited : Option ℤ → R.Store → Action (State R) (Unit {0})
  limited none store w = (ok tt, record w { store = store })
  limited (some t) store w = (raise (rate_limited t), record w { store = store })

  unfoldable pub limit : Key → ℕ → ℕ → Action (State R) (Unit {0})
  limit key most window w =
      let (answer, store) = check_rate_limit R w.store key most window in limited answer store w

module _ (R : Redis) (app : App) (d : Draws) where
  -- `issue_tokens` with the access token.
  unfoldable pub issue : ℕ → Action (State R) TokenResponse
  issue user w =
      let (r, refresh_tokens) =
        issue_tokens app.sha256_hex w.refresh_tokens user d.token d.fresh d.later in
      let w' = record w { refresh_tokens = refresh_tokens } in
      elim r [
        | ok refresh_token ↦ (
          ok (record {
            access_token = (create_access_token app.jwt app.settings user d.now).0;
            refresh_token = refresh_token;
            expires_in = app.settings.access_token_ttl_seconds;
          }),
          w',
        )
        | raise e ↦ (raise e, w')
        | crash ↦ (crash, w')
      ]

  -- After the limits: the password, and a failure counted or a pair of tokens.
  unfoldable pub sign_in : String → String → Action (State R) TokenResponse
  sign_in email password w = elim (authenticate_user app.setup w.users.accounts email password) [
    | none ↦ (
      raise invalid_credentials,
      record w { store = register_failure R w.store (account_key app email) login_account_window },
    )
    | some a ↦ issue a.id w
  ]

  abbrev pub blocked_or : Option ℤ → String → String → Action (State R) TokenResponse
  blocked_or (some t) email password w = (raise (rate_limited t), w)
  blocked_or none email password w = sign_in email password w

  unfoldable pub unless_blocked : String → String → Action (State R) TokenResponse
  unless_blocked email password w =
      blocked_or (retry_after_if_blocked R w.store (account_key app email) login_account_failures)
        email password w

  unfoldable pub login : String → String → String → Action (State R) TokenResponse
  login ip email password =
      limit R (Key.login_ip ip) login_ip_limit login_ip_window >> unless_blocked email password

  -- An e-mail token, whose text is sent to the account's address.
  unfoldable pub send_token : Purpose → Account → Action (State R) (Unit {0})
  send_token purpose a w =
      let (r, email_tokens) =
        create_email_token app.sha256_hex w.email_tokens a.id purpose d.token d.fresh d.now in
      let w' = record w { email_tokens = email_tokens } in
      elim r [ ok _ ↦ (ok tt, w') | raise e ↦ (raise e, w') | crash ↦ (crash, w') ]

  -- `register`; the answer is the account.
  unfoldable pub register : String → String → Option String → Bool → Action (State R) Account
  register ip email display_name accept_terms = do
    limit R (Key.register_ip ip) register_ip_limit register_ip_window
    a ← on_users R (
        register_user app.setup d.times email d.hash display_name accept_terms
          (if accept_terms then some terms_version else none))
    send_token verify_email a
    pure a

  abbrev pub resolved : Outcome OauthIdentity → Action (State R) OauthIdentity
  resolved r w = (r, w)

  -- `oauth_login`; the exchange of the code with the provider is given by its end.
  unfoldable pub oauth_login :
      String → String → Outcome OauthIdentity → Option String → Action (State R) TokenResponse
  oauth_login ip provider exchange display_name = do
    limit R (Key.oauth_ip ip) login_ip_limit login_ip_window
    identity ← resolved exchange
    a ← on_users R (find_or_create_user app.setup d.times provider identity display_name true)
    issue a.id

  -- `refresh`
  unfoldable pub refresh : String → Action (State R) TokenResponse
  refresh token w =
      let (r, refresh_tokens) =
        rotate_refresh_token app.sha256_hex (map as_user w.users.accounts) w.refresh_tokens token
          d.token d.fresh d.now in
      let w' = record w { refresh_tokens = refresh_tokens } in
      elim r [
        | ok (user, refresh_token) ↦ (
          ok (record {
            access_token = (create_access_token app.jwt app.settings user d.later).0;
            refresh_token = refresh_token;
            expires_in = app.settings.access_token_ttl_seconds;
          }),
          w',
        )
        | raise e ↦ (raise e, w')
        | crash ↦ (crash, w')
      ]

  -- `logout`
  unfoldable pub logout : String → Action (State R) (Unit {0})
  logout token w = (
    ok tt,
    record w {
      refresh_tokens = revoke_refresh_token app.sha256_hex token d.later w.refresh_tokens;
    },
  )

  -- `request_password_reset`: an unknown address changes nothing.
  unfoldable pub request_password_reset : String → Action (State R) (Unit {0})
  request_password_reset email w = elim (get_user_by_email app.setup w.users.accounts email) [
    | none ↦ (ok tt, w)
    | some a ↦ send_token reset_password a w
  ]

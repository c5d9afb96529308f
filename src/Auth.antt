-- ===== src/Auth.antt =====
-- evren-backend/app/services/auth_service.py: refresh tokens and their rotation, e-mail tokens, and
-- the change of a password. The digest and the password check are parameters; a new token, a new id,
-- a new password's hash and a clock reading are arguments.
pub mod Shared
pub mod Rotation
pub mod Tokens
use Prim.Native.String.{String}
use text.Mathlib.Text.{◌==◌ as str_eq}
use ufuk_ai_agent.Prelude.{
  ℕ, ◌+◌, ◌*◌, Bool, true, false, ◌&&◌, ◌||◌, not, Option, none, some, is_some, List, [], ◌∷◌, ◌++◌,
  ltb, ◌==◌, any, map, if◌then◌else◌,
}
use ufuk_ai_agent.Errors.{ApiError, Outcome, ok, raise, crash, api_error}
use ufuk_ai_agent.Models.{microseconds_per_second}
use ufuk_ai_agent.Subscriptions.Tables.{first}

-- `EmailTokenPurpose` of models/enums.py
pub data Purpose : Type 0 where
  verify_email reset_password : Purpose

-- The columns of `User` that the service reads or writes after sign-up.
pub record User : Type 0 where
  pub id : ℕ
  pub password_hash : Option String
  pub is_active : Bool
  pub email_verified : Bool

pub record RefreshToken : Type 0 where
  pub id : ℕ
  pub user_id : ℕ
  pub token_hash : String
  pub expires_at : ℕ
  pub created_at : ℕ
  pub revoked_at : Option ℕ
  pub replaced_by : Option ℕ

pub record EmailToken : Type 0 where
  pub id : ℕ
  pub user_id : ℕ
  pub token_hash : String
  pub purpose : Purpose
  pub expires_at : ℕ
  pub used_at : Option ℕ
  pub created_at : ℕ

abbrev pub refresh_token_ttl : ℕ
refresh_token_ttl = 30 * 24 * 3600 * microseconds_per_second

abbrev pub email_token_ttl : Purpose → ℕ
email_token_ttl verify_email = 24 * 3600 * microseconds_per_second
email_token_ttl reset_password = 3600 * microseconds_per_second

abbrev pub same_purpose : Purpose → Purpose → Bool
same_purpose verify_email verify_email = true
same_purpose verify_email reset_password = false
same_purpose reset_password verify_email = false
same_purpose reset_password reset_password = true

-- A change of the one row that a query has found: the first that passes.
unfoldable pub change_first {ℓ} : {A : Type ℓ} → (A → Bool) → (A → A) → List A → List A
change_first p f [] = []
change_first p f (x ∷ xs) = if p x then f x ∷ xs else x ∷ change_first p f xs

abbrev pub has_hash : String → RefreshToken → Bool
has_hash h r = str_eq r.token_hash h

-- `user_id == user and revoked_at is None`
abbrev pub is_live : ℕ → RefreshToken → Bool
is_live user r = r.user_id == user && not (is_some r.revoked_at)

-- `revoke_all_user_tokens`, and the same update in `rotate_refresh_token`.
unfoldable pub revoke_all_user_tokens : ℕ → ℕ → List RefreshToken → List RefreshToken
revoke_all_user_tokens user now [] = []
revoke_all_user_tokens user now (r ∷ rows) =
    (if is_live user r then record r { revoked_at = some now } else r)
    ∷ revoke_all_user_tokens user now rows

abbrev pub refresh_row : ℕ → ℕ → String → ℕ → ℕ → RefreshToken
refresh_row id user hash expires_at stamp = record {
  id = id;
  user_id = user;
  token_hash = hash;
  expires_at = expires_at;
  created_at = stamp;
  revoked_at = none;
  replaced_by = none;
}

abbrev pub auth_error : String → ApiError
auth_error code = api_error 401 code

abbrev pub active_user : ℕ → List User → Bool
active_user id users = elim (first (λ (u : User). u.id == id) users) [
  | none ↦ false
  | some u ↦ u.is_active
]

-- The row that the rotation spends.
abbrev pub spent : ℕ → ℕ → RefreshToken → RefreshToken
spent now fresh r = record r { revoked_at = some now; replaced_by = some fresh }

module _ (sha256_hex : String → String) where
  -- `issue_tokens`: the insert of the refresh token; its hash is unique.
  unfoldable pub issue_tokens :
      List RefreshToken → ℕ → String → ℕ → ℕ → Outcome String × List RefreshToken
  issue_tokens rows user token fresh now =
      if any (has_hash (sha256_hex token)) rows then (crash, rows) else (
        ok token,
        rows ++ refresh_row fresh user (sha256_hex token) (now + refresh_token_ttl) now ∷ [],
      )

  -- `rotate_refresh_token`; the answer is the user and the new refresh token.
  unfoldable pub rotate_refresh_token :
      List User
      → List RefreshToken
      → String
      → String
      → ℕ
      → ℕ
      → Outcome (ℕ × String) × List RefreshToken
  unfolding revoke_all_user_tokens change_first
  rotate_refresh_token users rows token new_token fresh now =
      elim (first (has_hash (sha256_hex token)) rows) [
        | none ↦ (raise (auth_error "invalid_refresh_token"), rows)
        | some row ↦
            if is_some row.revoked_at
            then (
              raise (auth_error "refresh_token_reused"),
              revoke_all_user_tokens row.user_id now rows,
            )
            else if ltb row.expires_at now
            then (raise (auth_error "invalid_refresh_token"), rows)
            else if not (active_user row.user_id users)
            then (raise (auth_error "invalid_refresh_token"), rows)
            else if any (has_hash (sha256_hex new_token)) rows
            then (crash, rows)
            else (
              ok (row.user_id, new_token),
              change_first (has_hash (sha256_hex token)) (spent now fresh) rows
                  ++ refresh_row fresh row.user_id (sha256_hex new_token) (now + refresh_token_ttl)
                      now
                    ∷ [],
            )
      ]

  -- `revoke_refresh_token`
  unfoldable pub revoke_refresh_token : String → ℕ → List RefreshToken → List RefreshToken
  revoke_refresh_token token now [] = []
  revoke_refresh_token token now (r ∷ rows) =
      (if has_hash (sha256_hex token) r && not (is_some r.revoked_at)
        then record r { revoked_at = some now }
        else r)
      ∷ revoke_refresh_token token now rows

  abbrev pub matches : String → Purpose → EmailToken → Bool
  matches token purpose r = str_eq r.token_hash (sha256_hex token) && same_purpose r.purpose purpose

  -- `create_email_token`; the hash is unique.
  unfoldable pub create_email_token :
      List EmailToken → ℕ → Purpose → String → ℕ → ℕ → Outcome String × List EmailToken
  create_email_token rows user purpose token fresh now =
      if any (λ (r : EmailToken). str_eq r.token_hash (sha256_hex token)) rows
      then (crash, rows)
      else (
        ok token,
        rows
            ++ record {
              id = fresh;
              user_id = user;
              token_hash = sha256_hex token;
              purpose = purpose;
              expires_at = now + email_token_ttl purpose;
              used_at = none;
              created_at = now;
            }
              ∷ [],
      )

  -- `consume_email_token`
  unfoldable pub consume_email_token :
      List EmailToken → String → Purpose → ℕ → Outcome ℕ × List EmailToken
  unfolding change_first
  consume_email_token rows token purpose now = elim (first (matches token purpose) rows) [
    | none ↦ (raise (api_error 400 "invalid_token"), rows)
    | some row ↦
        if is_some row.used_at || ltb row.expires_at now
        then (raise (api_error 400 "invalid_token"), rows)
        else (
          ok row.user_id,
          change_first (matches token purpose) (λ (r : EmailToken). record r { used_at = some now })
              rows,
        )
  ]

-- The three tables that a password's change touches.
pub record Accounts : Type 0 where
  pub users : List User
  pub refresh_tokens : List RefreshToken
  pub email_tokens : List EmailToken

-- `update(User).where(User.id == user).values(password_hash=…)`
unfoldable pub set_password : ℕ → String → List User → List User
set_password id hash users =
    map (λ (u : User). if u.id == id then record u { password_hash = some hash } else u) users

-- `update(User).where(User.id == user).values(email_verified=True)`
unfoldable pub set_verified : ℕ → List User → List User
set_verified id users =
    map (λ (u : User). if u.id == id then record u { email_verified = true } else u) users

-- `change_password` of the signed-in user, with the new password's hash.
unfoldable pub change_password :
    (String → String → Bool) → Accounts → User → String → String → ℕ → Outcome (Unit {0}) × Accounts
unfolding set_password revoke_all_user_tokens
change_password verify_password w user current_password new_hash now = elim user.password_hash [
  | none ↦ (raise (auth_error "invalid_credentials"), w)
  | some hash ↦
      if not (verify_password current_password hash)
      then (raise (auth_error "invalid_credentials"), w)
      else (
        ok tt,
        record w {
          users = set_password user.id new_hash w.users;
          refresh_tokens = revoke_all_user_tokens user.id now w.refresh_tokens;
        },
      )
]

module _ (sha256_hex : String → String) where
  -- `verify_email`
  unfoldable pub verify_email_token : Accounts → String → ℕ → Outcome (Unit {0}) × Accounts
  unfolding consume_email_token set_verified
  verify_email_token w token now =
      let (r, email_tokens) =
        consume_email_token sha256_hex w.email_tokens token verify_email now in
      elim r [
        | ok user ↦
            (ok tt, record w { email_tokens = email_tokens; users = set_verified user w.users })
        | raise e ↦ (raise e, record w { email_tokens = email_tokens })
        | crash ↦ (crash, record w { email_tokens = email_tokens })
      ]

  -- `confirm_password_reset`
  unfoldable pub confirm_password_reset :
      Accounts → String → String → ℕ → ℕ → Outcome (Unit {0}) × Accounts
  unfolding consume_email_token set_password revoke_all_user_tokens
  confirm_password_reset w token new_hash now later =
      let (r, email_tokens) =
        consume_email_token sha256_hex w.email_tokens token reset_password now in
      elim r [
        | ok user ↦ (
          ok tt,
          record {
            users = set_password user new_hash w.users;
            refresh_tokens = revoke_all_user_tokens user later w.refresh_tokens;
            email_tokens = email_tokens;
          },
        )
        | raise e ↦ (raise e, record w { email_tokens = email_tokens })
        | crash ↦ (crash, record w { email_tokens = email_tokens })
      ]

-- ===== src/Auth/Tokens.antt =====
-- Repeated uses of an e-mail token: `consume_email_token` and `confirm_password_reset` of
-- auth_service.py.
use Prim.Native.String.{String}
use ufuk_ai_agent.Prelude.{
  ℕ, ◌≡◌, refl, ap, true, false, none, some, is_some, List, any, arith, inl, inr, Option-cases,
}
use ufuk_ai_agent.Errors.{Outcome, ok, raise, api_error}
use ufuk_ai_agent.Subscriptions.Tables.{first}
use ufuk_ai_agent.Auth.{
  EmailToken, Purpose, change_first, is_live, revoke_all_user_tokens, matches, consume_email_token,
  Accounts, confirm_password_reset, reset_password, set_password,
}
use ufuk_ai_agent.Auth.Shared.{first-change_first, first_passes, revoke_all_user_tokens-none_live}

module _ (sha256_hex : String → String) where
  consumed :
      (rows : List EmailToken) (token : String) (purpose : Purpose) (now : ℕ) (user : ℕ)
      (row : EmailToken)
      → first (matches sha256_hex token purpose) rows ≡ some row
      → (consume_email_token sha256_hex rows token purpose now).0 ≡ ok user
      → (consume_email_token sha256_hex rows token purpose now).1
        ≡ change_first
            (matches sha256_hex token purpose)
            (λ (r : EmailToken). record r { used_at = some now })
            rows
  unfolding consume_email_token
  consumed rows token purpose now user row found done = ground arith

  used :
      (rows : List EmailToken) (token : String) (purpose : Purpose) (now : ℕ) (row : EmailToken)
      → first (matches sha256_hex token purpose) rows ≡ some row
      → is_some row.used_at ≡ true
      → consume_email_token sha256_hex rows token purpose now
        ≡ (raise (api_error 400 "invalid_token"), rows)
  unfolding consume_email_token
  used rows token purpose now row found old = ground arith

  absent :
      (rows : List EmailToken) (token : String) (purpose : Purpose) (now user : ℕ)
      → first (matches sha256_hex token purpose) rows ≡ none
      → (consume_email_token sha256_hex rows token purpose now).0 ≡ ok user
      → ⊥
  unfolding consume_email_token
  absent rows token purpose now user missing done = ground arith

  -- Once an e-mail token was consumed for a purpose, a second consumption for that purpose on the
  -- table it left raises `invalid_token` and changes no row.
  pub consume_email_token_once :
      (rows : List EmailToken) (token : String) (purpose : Purpose) (now now' user : ℕ)
      → (consume_email_token sha256_hex rows token purpose now).0 ≡ ok user
      → let rows' = (consume_email_token sha256_hex rows token purpose now).1 in
        consume_email_token sha256_hex rows' token purpose now'
        ≡ (raise (api_error 400 "invalid_token"), rows')
  consume_email_token_once rows token purpose now now' user done =
      let p = matches sha256_hex token purpose in
      elim (Option-cases (first p rows)) [
        | inl missing ↦ absurd (absent rows token purpose now user missing done)
        | inr (row, found) ↦ rw (consumed rows token purpose now user row found done) (
            used _ token purpose now' (record row { used_at = some now })
              (first-change_first p (λ (r : EmailToken). record r { used_at = some now }) rows row
                (first_passes p rows row found) found)
              refl)
      ]

  confirmed :
      (w : Accounts) (token new_hash : String) (now later user : ℕ)
      → (consume_email_token sha256_hex w.email_tokens token reset_password now).0 ≡ ok user
      → confirm_password_reset sha256_hex w token new_hash now later ≡ (
        ok tt,
        record {
          users = set_password user new_hash w.users;
          refresh_tokens = revoke_all_user_tokens user later w.refresh_tokens;
          email_tokens = (consume_email_token sha256_hex w.email_tokens token reset_password now).1;
        },
      )
  unfolding confirm_password_reset
  confirmed w token new_hash now later user done = rw (done, confirm_password_reset)

  rejected :
      (w : Accounts) (token new_hash : String) (now later : ℕ)
      → consume_email_token sha256_hex w.email_tokens token reset_password now
        ≡ (raise (api_error 400 "invalid_token"), w.email_tokens)
      → confirm_password_reset sha256_hex w token new_hash now later
        ≡ (raise (api_error 400 "invalid_token"), w)
  unfolding confirm_password_reset
  rejected w token new_hash now later e =
      rw (e, confirm_password_reset)
        (ap
          (λ (x : Outcome ℕ × List EmailToken).
            (raise (api_error 400 "invalid_token"), record w { email_tokens = x.1 }))
          e)

  -- If a reset token is accepted for a user, the reset succeeds, the user has no live refresh
  -- token after it, and a second reset with the same token on the state it left raises
  -- `invalid_token` and changes nothing.
  pub confirm_password_reset_once :
      (w : Accounts) (token new_hash new_hash' : String) (now later now' later' user : ℕ)
      → (consume_email_token sha256_hex w.email_tokens token reset_password now).0 ≡ ok user
      → let (r, w') = confirm_password_reset sha256_hex w token new_hash now later in
        (r ≡ ok tt)
        × (any (is_live user) w'.refresh_tokens ≡ false)
        × (confirm_password_reset sha256_hex w' token new_hash' now' later'
            ≡ (raise (api_error 400 "invalid_token"), w'))
  confirm_password_reset_once w token new_hash new_hash' now later now' later' user done =
      rw (confirmed w token new_hash now later user done) (
        refl,
        revoke_all_user_tokens-none_live user later w.refresh_tokens,
        rejected
            (record {
              users = set_password user new_hash w.users;
              refresh_tokens = revoke_all_user_tokens user later w.refresh_tokens;
              email_tokens =
                  (consume_email_token sha256_hex w.email_tokens token reset_password now).1;
            })
            token new_hash' now' later'
            (consume_email_token_once w.email_tokens token reset_password now now' user done),
      )

-- ===== src/Tests/Accounts.antt =====
-- Tokens at concrete inputs; the digest is the identity.
use Prim.Native.String.{String}
use ufuk_ai_agent.Prelude.{◌≡◌, refl, true, false, none, some, List, [], ◌∷◌, any, arith}
use ufuk_ai_agent.Errors.{ok, raise, api_error}
use ufuk_ai_agent.Subscriptions.Tables.{first}
use ufuk_ai_agent.Auth.{
  User, RefreshToken, EmailToken, refresh_row, has_hash, is_live, auth_error, rotate_refresh_token,
  consume_email_token, reset_password, Accounts, confirm_password_reset, active_user,
}
use ufuk_ai_agent.Auth.Rotation.{rotate_refresh_token_reuse, rotate_refresh_token_chain}
use ufuk_ai_agent.Auth.Tokens.{confirm_password_reset_once}

abbrev digest : String → String
digest s = s

abbrev users : List User
users = record { id = 7; password_hash = some "h"; is_active = true; email_verified = false } ∷ []

abbrev tokens : List RefreshToken
tokens = refresh_row 1 7 "t1" 9_000 10 ∷ refresh_row 2 7 "t2" 9_000 20 ∷ []

rotates_first : (rotate_refresh_token digest users tokens "t1" "t3" 3 100).0 ≡ ok (7, "t3")
unfolding rotate_refresh_token first
rotates_first = refl

rotate_refresh_token_reuse_example :
    let rows' = (rotate_refresh_token digest users tokens "t1" "t3" 3 100).1 in
    let (again, rows'') = rotate_refresh_token digest users rows' "t1" "t4" 4 200 in
    (again ≡ raise (auth_error "refresh_token_reused")) × (any (is_live 7) rows'' ≡ false)
rotate_refresh_token_reuse_example =
    rotate_refresh_token_reuse digest users tokens "t1" "t3" 3 100 7 "t3" users "t4" 4 200
      rotates_first

unseen : any (has_hash "t4") (rotate_refresh_token digest users tokens "t1" "t3" 3 100).1 ≡ false
unfolding rotate_refresh_token first
unseen = refl

is_active_7 : active_user 7 users ≡ true
unfolding first
is_active_7 = refl

rotate_refresh_token_chain_example :
    (rotate_refresh_token digest users
      (rotate_refresh_token digest users tokens "t1" "t3" 3 100).1
      "t3"
      "t4"
      4
      200).0
    ≡ ok (7, "t4")
rotate_refresh_token_chain_example =
    rotate_refresh_token_chain digest users tokens "t1" "t3" 3 100 7 "t3" users "t4" 4 200
      rotates_first is_active_7 (omega arith) unseen

abbrev emails : List EmailToken
emails =
    record {
      id = 1;
      user_id = 7;
      token_hash = "e1";
      purpose = reset_password;
      expires_at = 500;
      used_at = none;
      created_at = 10;
    }
    ∷ []

consumes : (consume_email_token digest emails "e1" reset_password 100).0 ≡ ok 7
unfolding consume_email_token first
consumes = refl

abbrev accounts : Accounts
accounts = record { users = users; refresh_tokens = tokens; email_tokens = emails }

confirm_password_reset_once_example :
    let (r, w') = confirm_password_reset digest accounts "e1" "new" 100 101 in
    (r ≡ ok tt)
    × (any (is_live 7) w'.refresh_tokens ≡ false)
    × (confirm_password_reset digest w' "e1" "newer" 102 103
        ≡ (raise (api_error 400 "invalid_token"), w'))
confirm_password_reset_once_example =
    confirm_password_reset_once digest accounts "e1" "new" "newer" 100 101 102 103 7 consumes

-- ===== src/Tests/Exchange.antt =====
-- A code of Google's whose token is under a key that only the second request for the keys has.
use Prim.Native.String.{String}
use text.Mathlib.Text.{◌==◌ as str_eq}
use ufuk_ai_agent.Prelude.{ℕ, zero, suc, ◌≡◌, refl, true, Option, none, some, if◌then◌else◌}
use ufuk_ai_agent.Errors.{ok}
use ufuk_ai_agent.Json.{
  Value, Fields, boolean, string, array, object, nil, cons, end, field, get, as_string,
}
use ufuk_ai_agent.SignIn.{OauthIdentity}
use ufuk_ai_agent.SignIn.IdToken.{
  Outside, read_keys, fetch_provider_keys, find_key, signing_key, read_identity, verify_id_token,
}
use ufuk_ai_agent.SignIn.Exchange.{Settings, id_token_of, exchange_code, resolve_identity}
use ufuk_ai_agent.SignIn.Exchange.Resolution.{Resolves, resolve_identity-Resolves}
use ufuk_ai_agent.Redis.Memory.{memory}
use ufuk_ai_agent.Sessions.{oauth_login}
use ufuk_ai_agent.Sessions.Oauth.{Joins, oauth_login-Joins}
use ufuk_ai_agent.Tests.Sessions.{app, draws, state}

abbrev settings : Settings
settings = record {
  google_client_id = some "g";
  google_client_secret = some "s";
  apple_client_id = none;
  apple_client_secret = none;
  apple_team_id = none;
  apple_key_id = none;
  apple_private_key = none;
  oauth_redirect_uri = "https://a";
}

abbrev key_set : String → Value
key_set kid = object (field "keys" (array (cons (object (field "kid" (string kid) end)) nil)) end)

abbrev keys_at : ℕ → Option Value
keys_at zero = some (key_set "old")
keys_at (suc n) = some (key_set "new")

abbrev claims : Fields
claims =
    field "sub" (string "42")
      (field "email" (string "a@b.c") (field "email_verified" (boolean true) end))

abbrev outside : Outside String
outside = record {
  urlencode = λ d. "";
  str = λ v. elim v as (λ _. String) [
    | string s ↦ s
    | Value.null ↦ ""
    | boolean _ ↦ ""
    | Value.int _ ↦ ""
    | Value.float _ ↦ ""
    | array _ ↦ ""
    | object _ ↦ ""
  ];
  normalize_email = λ s. s;
  post = λ url sent.
      some (record { status_code = 200; body = some (object (field "id_token" (string "t") end)) });
  fetch = λ url n. keys_at n;
  kid_of = λ t. some (some "new");
  from_jwk = λ jwk. as_string (get "kid" jwk);
  decode = λ key audience issuer t. if str_eq key "new" then some claims else none;
  mint = λ team id kid key. none;
}

abbrev identity : OauthIdentity
identity = record { subject = "42"; email = "a@b.c"; display_name = none }

resolved : resolve_identity outside settings "google" "c" ≡ ok identity
unfolding resolve_identity exchange_code verify_id_token id_token_of read_identity signing_key
    find_key fetch_provider_keys read_keys get
resolved = refl

resolve_identity-Resolves_example :
    Resolves outside settings
      (str_eq "google" "google")
      (str_eq "google" "apple")
      (resolve_identity outside settings "google" "c")
resolve_identity-Resolves_example = resolve_identity-Resolves outside settings "google" "c"

oauth_login-Joins_example : Joins memory app draws outside settings "google" "c" none state (
    oauth_login memory app draws "1.2.3.4" "google"
      (resolve_identity outside settings "google" "c")
      none
      state)
oauth_login-Joins_example =
    oauth_login-Joins memory app draws outside settings "google" "c" none state "1.2.3.4"

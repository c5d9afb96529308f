-- ===== src/Tests/Sessions.antt =====
-- A sign-in and its access token, with tokens that are plain lists of their claims.
use Prim.Native.String.{String}
use text.Mathlib.Text.{◌==◌ as str_eq}
use text.Mathlib.TextEquality.{eq_iff}
use ufuk_ai_agent.Prelude.{
  ℕ, ◌*◌, ◌≡◌, ◌∙◌, refl, ap, ltb, Option, none, some, List, [], ◌∷◌, arith, if◌then◌else◌,
}
use ufuk_ai_agent.Errors.{raise}
use ufuk_ai_agent.Models.{microseconds_per_second}
use ufuk_ai_agent.Redis.{Key}
use ufuk_ai_agent.Redis.Memory.{memory, memory-IsLawful, empty}
use ufuk_ai_agent.Subscriptions.Tables.{first}
use ufuk_ai_agent.SignIn.{Account, has_id}
use ufuk_ai_agent.Access.{
  Jwt, IsLawful, Claims, Verdict, Settings, valid, expired, invalid, create_access_token,
  get_current_user, unauthorized,
}
use ufuk_ai_agent.Access.Admission.{
  Admits, get_current_user-Admits, get_current_user-create_access_token,
}
use ufuk_ai_agent.Sessions.{App, State, Draws, account_key, login}
use ufuk_ai_agent.Sessions.Login.{SignsIn, login-SignsIn}
use ufuk_ai_agent.Sessions.Guesses.{
  Event, guess, lapse, renewed, run_logins, Bounded, run_logins-Bounded,
}
use ufuk_ai_agent.Tests.Tiers.{codec, codec-IsFaithful}
use ufuk_ai_agent.Tests.SignIns as SignIns

abbrev in_time : ℕ → Claims → Verdict
in_time now claims =
    if ltb now (claims.exp * microseconds_per_second) then valid claims else expired

abbrev with_times : ℕ → String → String → Option ℕ → Option ℕ → Verdict
with_times now sub type none exp = invalid
with_times now sub type (some iat) none = invalid
with_times now sub type (some iat) (some exp) =
    in_time now (record { sub = sub; type = type; iat = iat; exp = exp })

abbrev read_token : ℕ → String → Option (List String) → Verdict
read_token now secret (some (s ∷ sub ∷ type ∷ iat ∷ exp ∷ [])) =
    if str_eq s secret
    then with_times now sub type (codec.read_int iat) (codec.read_int exp)
    else invalid
read_token now secret _ = invalid

abbrev jwt : Jwt
jwt = record {
  encode = λ claims secret. codec.dumps (
      secret
      ∷ claims.sub
      ∷ claims.type
      ∷ codec.show_int claims.iat
      ∷ codec.show_int claims.exp
      ∷ []);
  decode = λ now secret token. read_token now secret (codec.loads token);
}

jwt-IsLawful : IsLawful jwt
jwt-IsLawful = record {
  decode-encode = λ claims secret now h.
      ap (read_token now secret) (
        codec-IsFaithful.loads-dumps (
          secret
          ∷ claims.sub
          ∷ claims.type
          ∷ codec.show_int claims.iat
          ∷ codec.show_int claims.exp
          ∷ []))
      ∙ ap
          (λ b.
            if b
            then with_times now claims.sub claims.type (codec.read_int (codec.show_int claims.iat))
                (codec.read_int (codec.show_int claims.exp))
            else invalid)
          ((eq_iff secret secret).1 refl)
      ∙ ap
          (λ iat.
            with_times now claims.sub claims.type iat (codec.read_int (codec.show_int claims.exp)))
          (codec-IsFaithful.read-show_int claims.iat)
      ∙ ap (with_times now claims.sub claims.type (some claims.iat))
          (codec-IsFaithful.read-show_int claims.exp);
}

abbrev settings : Settings
settings = record {
  jwt_secret = "secret";
  access_token_ttl_seconds = 60;
  show_id = codec.show_int;
  read_id = codec.read_int;
  lower = λ s. s;
}

abbrev accounts : List Account
accounts = SignIns.registered ∷ []

known_account : first (has_id 7) accounts ≡ some SignIns.registered
unfolding first
known_account = refl

get_current_user-Admits_example :
    Admits jwt settings accounts (some ("bearer", (create_access_token jwt settings 7 0).0)) 3 (
      get_current_user jwt settings accounts
        (some ("bearer", (create_access_token jwt settings 7 0).0))
        3)
get_current_user-Admits_example =
    get_current_user-Admits jwt settings accounts
      (some ("bearer", (create_access_token jwt settings 7 0).0)) 3

get_current_user-create_access_token_example :
    get_current_user jwt settings accounts
      (some ("bearer", (create_access_token jwt settings 7 0).0))
      61_000_000
    ≡ raise (unauthorized "token_expired")
get_current_user-create_access_token_example =
    get_current_user-create_access_token jwt jwt-IsLawful settings accounts "bearer"
      SignIns.registered 0 61_000_000 (codec-IsFaithful.read-show_int 7) refl known_account refl
      (omega arith)

-- An application where every password but "right" is wrong.
abbrev pub app : App
app = record {
  setup = record SignIns.setup { verify_password = λ password hash. str_eq password "right" };
  settings = settings;
  jwt = jwt;
  sha256_hex = λ s. s;
}

abbrev pub draws : Draws
draws = record { times = SignIns.times; token = "t1"; fresh = 5; now = 10; later = 11; hash = "h" }

abbrev pub state : State memory
state = record { store = empty; users = SignIns.users; refresh_tokens = []; email_tokens = [] }

login-SignsIn_example :
    SignsIn memory app draws "a@b.c" "right" state
      (login memory app draws "1.2.3.4" "a@b.c" "right" state)
login-SignsIn_example =
    login-SignsIn memory memory-IsLawful app draws "a@b.c" "right" "1.2.3.4" state

abbrev wrong : String → Event
wrong ip = guess (draws, ip, "wrong")

abbrev events : List Event
events =
    wrong "1"
    ∷ wrong "2"
    ∷ wrong "3"
    ∷ wrong "4"
    ∷ wrong "5"
    ∷ wrong "6"
    ∷ lapse (account_key app "a@b.c")
    ∷ lapse (Key.login_ip "1")
    ∷ wrong "7"
    ∷ []

run_logins-Bounded_example :
    Bounded memory memory-IsLawful app "a@b.c" 0
      (renewed (account_key app "a@b.c") events)
      (run_logins memory app "a@b.c" events state)
run_logins-Bounded_example =
    run_logins-Bounded memory memory-IsLawful app "a@b.c" events state 0 refl (omega arith)

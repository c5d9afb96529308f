-- ===== src/SignIn.antt =====
-- Accounts: `register_user` and `authenticate_user` of evren-backend/app/services/auth_service.py and
-- `find_or_create_user` of evren-backend/app/services/oauth_service.py. `lower` is Python's `str.lower`;
-- the password check is a parameter, and a new hash, a new id and clock readings are arguments. `raced`
-- are the accounts that other transactions have committed meanwhile.
pub mod Lookup
pub mod Identities
pub mod IdToken
pub mod Exchange
use Prim.Native.String.{String}
use text.Mathlib.Text.{◌==◌ as str_eq}
use ufuk_ai_agent.Prelude.{
  ℕ, Bool, true, false, not, ◌&&◌, ◌||◌, ◌==◌, Option, none, some, is_some, List, [], ◌∷◌, ◌++◌,
  any, if◌then◌else◌,
}
use ufuk_ai_agent.Errors.{ApiError, Outcome, ok, raise, crash, api_error}
use ufuk_ai_agent.Action.{Action, pure, or_raise, or_crash, ◌>>=◌, ◌>>◌}
use ufuk_ai_agent.Models.{Plan, Subscription}
use ufuk_ai_agent.Subscriptions.{ensure_default_subscription}
use ufuk_ai_agent.Subscriptions.Tables.{first, str_eq?}
use ufuk_ai_agent.Auth.{change_first}
use ufuk_ai_agent.Upstream.{truthy_text}
use ufuk_ai_agent.Text.{strip}

pub data UserRole : Type 0 where
  user : UserRole
  admin : UserRole

-- The columns of `User` that signing in reads and writes.
pub record Account : Type 0 where
  pub id : ℕ
  pub email : String
  pub password_hash : Option String
  pub display_name : Option String
  pub auth_provider : Option String
  pub provider_subject : Option String
  pub role : UserRole
  pub email_verified : Bool
  pub is_active : Bool
  pub terms_accepted_at : Option ℕ
  pub terms_version : Option String

-- `OAuthIdentity`
pub record OauthIdentity : Type 0 where
  pub subject : String
  pub email : String
  pub display_name : Option String

pub record Setup : Type 0 where
  pub plans : List Plan
  pub admin_emails : List String
  pub lower : String → String
  pub verify_password : String → String → Bool

-- `terms_now` is the reading for the terms; the rest are those of the default subscription.
pub record Times : Type 0 where
  pub id : ℕ
  pub terms_now : ℕ
  pub now : ℕ
  pub later : ℕ
  pub fresh : ℕ
  pub stamp : ℕ
  pub raced : List Account

pub record Users : Type 0 where
  pub accounts : List Account
  pub subs : List Subscription

unfoldable pub normalize_email : Setup → String → String
unfolding strip
normalize_email c email = c.lower (strip email)

unfoldable pub role_of : Setup → String → UserRole
role_of c normalized =
    if any (λ e. str_eq normalized (c.lower e)) c.admin_emails then admin else user

abbrev pub has_email : String → Account → Bool
has_email email a = str_eq a.email email

unfoldable pub get_user_by_email : Setup → List Account → String → Option Account
unfolding normalize_email
get_user_by_email c accounts email = first (has_email (normalize_email c email)) accounts

abbrev pub subscribe_default : Setup → Times → ℕ → Users → Users
subscribe_default c d id w = record w {
  subs = (ensure_default_subscription c.plans w.subs id d.now d.later d.fresh d.stamp).1;
}

-- The unique columns: the address, and a provider with its subject.
abbrev pub same_text : Option String → Option String → Bool
same_text none b = false
same_text (some s) b = str_eq? s b

abbrev pub clashes : Account → Account → Bool
clashes a b =
    has_email a.email b
    || (same_text a.auth_provider b.auth_provider
        && same_text a.provider_subject b.provider_subject)

-- The insert of an account: none where a unique column is taken.
unfoldable pub insert_account : List Account → Times → Account → Option (List Account)
insert_account accounts d a =
    if any (clashes a) (accounts ++ d.raced) then none else some ((accounts ++ d.raced) ++ a ∷ [])

abbrev pub accepted : Bool → ℕ → Option ℕ
accepted true now = some now
accepted false now = none

abbrev pub accepted_version : Bool → Option String → Option String
accepted_version true version = version
accepted_version false version = none

unfoldable pub register_user :
    Setup → Times → String → String → Option String → Bool → Option String → Action Users Account
unfolding normalize_email role_of insert_account
register_user c d email password_hash display_name accept_terms terms_version w =
    let a : Account = record {
      id = d.id;
      email = normalize_email c email;
      password_hash = some password_hash;
      display_name = display_name;
      auth_provider = none;
      provider_subject = none;
      role = role_of c (normalize_email c email);
      email_verified = false;
      is_active = true;
      terms_accepted_at = accepted accept_terms d.terms_now;
      terms_version = accepted_version accept_terms terms_version;
    } in
    elim (insert_account w.accounts d a) [
      | none ↦ (
        raise (api_error 400 "registration_failed"),
        record w { accounts = w.accounts ++ d.raced },
      )
      | some accounts ↦ (ok a, subscribe_default c d a.id (record w { accounts = accounts }))
    ]

unfoldable pub checked : Setup → String → Account → Option Account
checked c password a = elim a.password_hash [
  | none ↦ none
  | some hash ↦ if c.verify_password password hash && a.is_active then some a else none
]

unfoldable pub authenticate_user : Setup → List Account → String → String → Option Account
unfolding get_user_by_email checked
authenticate_user c accounts email password = elim (get_user_by_email c accounts email) [
  | none ↦ none
  | some a ↦ checked c password a
]

abbrev pub oauth_failed : ApiError
oauth_failed = api_error 401 "oauth_failed"

abbrev pub has_identity : String → String → Account → Bool
has_identity provider subject a =
    str_eq? provider a.auth_provider && str_eq? subject a.provider_subject

-- The account of an identity, or else of its address.
unfoldable pub find_account : List Account → String → OauthIdentity → String → Option Account
find_account accounts provider identity normalized =
    elim (first (has_identity provider identity.subject) accounts) [
      | some a ↦ some a
      | none ↦ first (has_email normalized) accounts
    ]

-- The account with the identity bound, where it has none, and none where it has another.
unfoldable pub bind_identity : String → OauthIdentity → Account → Option Account
bind_identity provider identity a =
    if not (is_some a.auth_provider) && not (is_some a.provider_subject)
    then some (record a { auth_provider = some provider; provider_subject = some identity.subject })
    else if has_identity provider identity.subject a
    then some a
    else none

-- The display name, where the account has none, and the address as verified.
unfoldable pub complete : Option String → Account → Account
complete display_name a = record a {
  display_name = elim (truthy_text a.display_name) [
    | some name ↦ a.display_name
    | none ↦ elim (truthy_text display_name) [ some name ↦ some name | none ↦ a.display_name ]
  ];
  email_verified = true;
}

abbrev pub has_id : ℕ → Account → Bool
has_id id a = a.id == id

unfoldable pub link_bound : String → OauthIdentity → Option String → Account → Action Users Account
unfolding bind_identity complete
link_bound provider identity display_name a w = elim (bind_identity provider identity a) [
  | none ↦ (raise oauth_failed, w)
  | some bound ↦
      let linked = complete display_name bound in
      (ok linked, record w { accounts = change_first (has_id a.id) (λ _. linked) w.accounts })
]

unfoldable pub link_account :
    String → OauthIdentity → Option String → Account → Action Users Account
unfolding link_bound
link_account provider identity display_name a w =
    if not a.is_active
    then (raise oauth_failed, w)
    else link_bound provider identity display_name a w

abbrev pub chosen_name : Option String → OauthIdentity → Option String
chosen_name override identity = elim (truthy_text override) [
  | some n ↦ some n
  | none ↦ identity.display_name
]

abbrev pub new_account : Setup → Times → String → OauthIdentity → Option String → Bool → Account
new_account c d provider identity name accept_terms = record {
  id = d.id;
  email = normalize_email c identity.email;
  password_hash = none;
  display_name = name;
  auth_provider = some provider;
  provider_subject = some identity.subject;
  role = role_of c (normalize_email c identity.email);
  email_verified = true;
  is_active = true;
  terms_accepted_at = accepted accept_terms d.terms_now;
  terms_version = accepted_version accept_terms (some "2026-10");
}

-- The insert of a new account and its default subscription.
unfoldable pub create_account : Setup → Times → Account → Action Users Account
unfolding insert_account
create_account c d a w = elim (insert_account w.accounts d a) [
  | none ↦ (crash, record w { accounts = w.accounts ++ d.raced })
  | some accounts ↦ (ok a, subscribe_default c d a.id (record w { accounts = accounts }))
]

unfoldable pub find_or_create_user :
    Setup → Times → String → OauthIdentity → Option String → Bool → Action Users Account
unfolding find_account link_account normalize_email role_of create_account
find_or_create_user c d provider identity override accept_terms w =
    let name = chosen_name override identity in
    elim (find_account w.accounts provider identity (normalize_email c identity.email)) [
      | some a ↦ link_account provider identity name a w
      | none ↦ create_account c d (new_account c d provider identity name accept_terms) w
    ]

-- ===== src/Tests/SignIns.antt =====
-- A sign-in with Google at an address that was registered with a password.
use ufuk_ai_agent.Prelude.{none, some, [], ◌∷◌, true, false}
use ufuk_ai_agent.SignIn.{user, Account, OauthIdentity, Setup, Times, Users, find_or_create_user}
use ufuk_ai_agent.SignIn.Identities.{Identifies, find_or_create_user-Identifies}
use ufuk_ai_agent.Tests.Samples.{plans}

abbrev pub registered : Account
registered = record {
  id = 7;
  email = "a@b.c";
  password_hash = some "hash";
  display_name = none;
  auth_provider = none;
  provider_subject = none;
  role = user;
  email_verified = false;
  is_active = true;
  terms_accepted_at = none;
  terms_version = none;
}

abbrev identity : OauthIdentity
identity = record { subject = "42"; email = " a@b.c"; display_name = some "A" }

abbrev pub setup : Setup
setup = record {
  plans = plans;
  admin_emails = [];
  lower = λ s. s;
  verify_password = λ password hash. true;
}

abbrev pub times : Times
times = record { id = 8; terms_now = 1; now = 2; later = 3; fresh = 90; stamp = 4; raced = [] }

abbrev pub users : Users
users = record { accounts = registered ∷ []; subs = [] }

find_or_create_user-Identifies_example :
    Identifies setup times "google" identity users
      (find_or_create_user setup times "google" identity none true users)
find_or_create_user-Identifies_example =
    find_or_create_user-Identifies setup times "google" identity users none true

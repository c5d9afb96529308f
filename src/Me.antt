-- ===== src/Me.antt =====
-- `delete_me` of evren-backend/app/routers/me.py. The keys of the store that the
-- scans walk are an argument.
pub mod Keys
pub mod Deletion
use Prim.Native.String.{String}
use text.Mathlib.Text.{◌==◌ as str_eq}
use ufuk_ai_agent.Prelude.{
  ℕ, Bool, true, false, not, ◌&&◌, ◌==◌, Option, none, some, List, [], ◌∷◌, ◌++◌, select, map,
  if◌then◌else◌,
}
use ufuk_ai_agent.Errors.{ApiError, ok, raise, api_error}
use ufuk_ai_agent.Action.{Action}
use ufuk_ai_agent.Models.{UsageEvent, Subscription}
use ufuk_ai_agent.Redis.{Redis, Key}
use ufuk_ai_agent.Usage.{Rollup}
use ufuk_ai_agent.Auth.{RefreshToken, EmailToken}
use ufuk_ai_agent.SignIn.{Account}
use ufuk_ai_agent.Images.{Gallery, delete_for_user}

-- The store and every table that has a user's id; the gallery holds the subscriptions too.
pub record State (R : Redis) : Type 0 where
  pub store : R.Store
  pub accounts : List Account
  pub refresh_tokens : List RefreshToken
  pub email_tokens : List EmailToken
  pub events : List UsageEvent
  pub rollups : List Rollup
  pub gallery : Gallery

-- `UsageEvent.user_id == user`
abbrev pub of_user : ℕ → Option ℕ → Bool
of_user user none = false
of_user user (some u) = u == user

-- `update(UsageEvent).where(UsageEvent.user_id == user.id).values(user_id=None)`
unfoldable pub anonymize : ℕ → List UsageEvent → List UsageEvent
anonymize user events =
    map (λ (e : UsageEvent). if of_user user e.user_id then record e { user_id = none } else e)
      events

abbrev pub without_password : ApiError
without_password = api_error 401 "invalid_credentials"

-- With no folder of images set, the rows go with their user and the files stay.
unfoldable pub purge_images : ℕ → Bool → Gallery → Gallery
purge_images user true g = (delete_for_user user g).1
purge_images user false g = record g { images = (delete_for_user user g).1.images }

-- The text of a key up to its second colon, if it has one: a name and a user.
abbrev pub head_of : Key → Option (String × ℕ)
head_of (Key.credits u _) = some ("credits", u)
head_of (Key.budget u _) = some ("budget", u)
head_of (Key.inflight u) = none
head_of (Key.rpm u _) = some ("rpm", u)
head_of Key.global_rpm = none
head_of (Key.anomaly_clients u _) = some ("anomaly", u)
head_of (Key.anomaly_count u _) = some ("anomaly", u)
head_of (Key.register_ip _) = none
head_of (Key.login_ip _) = none
head_of (Key.oauth_ip _) = none
head_of (Key.login_account _) = none

abbrev pub starts : String → ℕ → Option (String × ℕ) → Bool
starts name user none = false
starts name user (some (other, u)) = str_eq other name && u == user

-- Whether a key matches the pattern `{name}:{user.id}:*`.
abbrev pub matches : String → ℕ → Key → Bool
matches name user k = starts name user (head_of k)

abbrev pub prefixes : List String
prefixes = "credits" ∷ "rpm" ∷ "budget" ∷ "anomaly" ∷ []

-- What `scan_iter` finds for each pattern among the keys of the store.
abbrev pub scans : ℕ → List String → List Key → List Key
scans user [] keys = []
scans user (name ∷ names) keys = select (matches name user) keys ++ scans user names keys

unfoldable pub user_keys : ℕ → List Key → List Key
user_keys user keys = scans user prefixes keys ++ Key.inflight user ∷ []

module _ (R : Redis) where
  unfoldable pub delete_keys : List Key → R.Store → R.Store
  delete_keys [] s = s
  delete_keys (k ∷ keys) s = delete_keys keys (R.delete s k)

  -- The images first, where they are stored; then the tables in one transaction; then the keys.
  unfoldable pub purge : ℕ → Bool → List Key → State R → State R
  unfolding anonymize delete_keys purge_images user_keys
  purge user images_root keys w = record w {
    store = delete_keys (user_keys user keys) w.store;
    accounts = select (λ (a : Account). not (a.id == user)) w.accounts;
    refresh_tokens = select (λ (r : RefreshToken). not (r.user_id == user)) w.refresh_tokens;
    email_tokens = select (λ (r : EmailToken). not (r.user_id == user)) w.email_tokens;
    events = anonymize user w.events;
    gallery = record (purge_images user images_root w.gallery) {
      subs = select (λ (s : Subscription). not (s.user_id == user)) w.gallery.subs;
    };
  }

  unfoldable pub delete_me :
      (String → String → Bool) → Account → String → Bool → List Key → Action (State R) (Unit {0})
  unfolding purge
  delete_me verify_password user password images_root keys w = elim user.password_hash [
    | none ↦ (raise without_password, w)
    | some hash ↦
        if not (verify_password password hash)
        then (raise without_password, w)
        else (ok tt, purge user.id images_root keys w)
  ]

-- ===== src/Billing.antt =====
-- evren-backend/app/routers/billing.py, `billing_webhook`, and the normalized events of
-- evren-backend/app/services/billing_providers/base.py. A payload
-- is the JSON value it decodes to, none where it does not decode.
pub mod Providers
pub mod Signatures
mod Readings
mod Assignment
pub mod Redelivery
pub mod Once
use Prim.Native.String.{String}
use text.Mathlib.Text.{◌==◌ as str_eq}
use ufuk_ai_agent.Prelude.{
  ℕ, Bool, true, false, not, ◌&&◌, ◌||◌, Option, none, some, List, [], ◌∷◌, ◌++◌, if◌then◌else◌,
}
use ufuk_ai_agent.Errors.{ApiError, Outcome, ok, raise, crash, api_error}
use ufuk_ai_agent.Action.{Action, pure, or_raise, or_crash, ◌>>=◌, ◌>>◌}
use ufuk_ai_agent.Models.{Plan, Subscription}
use ufuk_ai_agent.Json.{Value, Fields, null, boolean, int, float, string, array, object}
use ufuk_ai_agent.Subscriptions.Tables.{first, str_eq?}
use ufuk_ai_agent.Subscriptions.{GrantMode, start, renew, assign_plan}
use ufuk_ai_agent.Text.{lower_eq}
use ufuk_ai_agent.Upstream.{truthy, truthy_text}
use ufuk_ai_agent.Billing.Signatures.{Check, accepted, rejected, crashed}

pub data EventType : Type 0 where
  subscription_started : EventType
  subscription_renewed : EventType
  subscription_updated : EventType
  subscription_cancelled : EventType
  payment_succeeded : EventType
  payment_failed : EventType

-- The fields are what the payload holds, of any type.
pub record NormalizedEvent : Type 0 where
  pub type : EventType
  pub provider_event_id : Option Value
  pub provider_price_id : Option Value
  pub customer_email : Option Value

-- A delivery: the end of the provider's `verify_webhook`, and what `parse_event` makes of the payload, none where it raises.
pub record Delivery : Type 0 where
  pub verification : Check
  pub event : Option (Option NormalizedEvent)

-- The columns of a user that the query reads.
pub record Account : Type 0 where
  pub id : ℕ
  pub email : String

pub record Setup : Type 0 where
  pub billing_provider : String
  pub billing_webhook_secret : Option String
  pub stripe_webhook_secret : Option String
  pub plans : List Plan
  pub accounts : List Account

-- The providers, with whether they are live.
pub data Provider : Type 0 where
  stripe : Provider
  dodo : Bool → Provider
  paddle : Bool → Provider

abbrev pub registry : List (String × Provider)
registry =
    ("stripe", stripe)
    ∷ ("dodo", dodo false)
    ∷ ("dodo_live", dodo true)
    ∷ ("paddle", paddle false)
    ∷ ("paddle_live", paddle true)
    ∷ []

abbrev pub find_provider : String → List (String × Provider) → Option Provider
find_provider name [] = none
find_provider name ((known, p) ∷ providers) =
    let rest = find_provider name providers in if lower_eq name known then some p else rest

-- none where it raises a `BillingError`.
unfoldable pub get_provider : String → Option Provider
unfolding lower_eq
get_provider name = find_provider name registry

-- The secret that `_resolve` picks.
unfoldable pub webhook_secret : Setup → Option String
webhook_secret c = elim (truthy_text c.billing_webhook_secret) [
  | some secret ↦ some secret
  | none ↦ elim (truthy_text c.stripe_webhook_secret) [ some secret ↦ some secret | none ↦ none ]
]

-- The clock, the new row's id and time, and the rows that other transactions commit meanwhile.
pub record Times : Type 0 where
  pub now : ℕ
  pub fresh : ℕ
  pub stamp : ℕ
  pub raced : List Subscription

pub data Receipt : Type 0 where
  ignored : Receipt
  unknown_price : Receipt
  unknown_user : Receipt
  assigned : String → Receipt

-- The mode of the grant that an event makes, if it makes one.
unfoldable pub grant_mode : EventType → Option GrantMode
grant_mode subscription_started = some start
grant_mode subscription_renewed = some renew
grant_mode subscription_updated = none
grant_mode subscription_cancelled = none
grant_mode payment_succeeded = none
grant_mode payment_failed = none

-- A value that a query compares with a text column; the driver refuses any other type.
abbrev pub as_text : Value → Option String
as_text (string s) = some s
as_text null = none
as_text (boolean _) = none
as_text (int _) = none
as_text (float _) = none
as_text (array _) = none
as_text (object _) = none

-- `billing_event_id`: None, or a text.
abbrev pub event_id_text : Option Value → Option (Option String)
event_id_text none = some none
event_id_text (some null) = some none
event_id_text (some (string s)) = some (some s)
event_id_text (some (boolean _)) = none
event_id_text (some (int _)) = none
event_id_text (some (float _)) = none
event_id_text (some (array _)) = none
event_id_text (some (object _)) = none

unfoldable pub has_price : String → Plan → Bool
has_price price p = str_eq? price p.provider_price_id || str_eq? price p.stripe_price_id

abbrev pub has_email : String → Account → Bool
has_email email a = str_eq a.email email

-- `assign_plan` for the user and the plan that the queries found.
unfoldable pub grant :
    Plan → Account → GrantMode → Option String → Times → Action (List Subscription) Receipt
unfolding assign_plan
grant plan account mode event_id d subs =
    let (r, subs') =
      assign_plan subs d.raced true account.id plan.id mode event_id d.now d.fresh d.stamp in
    (elim r [ ok row ↦ ok (assigned plan.name) | raise e ↦ raise e | crash ↦ crash ], subs')

-- An early answer where something is missing.
abbrev pub or_receipt :
    {A : Type 0}
    → Option A
    → Receipt
    → (A → Action (List Subscription) Receipt)
    → Action (List Subscription) Receipt
or_receipt none receipt f = pure receipt
or_receipt (some a) receipt f = f a

abbrev pub grant_account :
    Setup → GrantMode → Option Value → Times → Plan → Account → Action (List Subscription) Receipt
grant_account c mode event_id d plan account = do
  id ← or_crash (event_id_text event_id)
  grant plan account mode id d

abbrev pub find_account :
    Setup → GrantMode → Option Value → Value → Times → Plan → Action (List Subscription) Receipt
find_account c mode event_id email d plan = do
  customer_email ← or_crash (as_text email)
  or_receipt (first (has_email customer_email) c.accounts) unknown_user
      (grant_account c mode event_id d plan)

-- From the price and the address on.
unfoldable pub match_and_grant :
    Setup → GrantMode → Option Value → Value → Value → Times → Action (List Subscription) Receipt
unfolding has_price grant
match_and_grant c mode event_id price email d = do
  price_id ← or_crash (as_text price)
  or_receipt (first (has_price price_id) c.plans) unknown_price
      (find_account c mode event_id email d)

abbrev pub with_price :
    Setup → NormalizedEvent → Times → GrantMode → Value → Action (List Subscription) Receipt
with_price c e d mode price =
    or_receipt (truthy e.customer_email) ignored
      (λ email. match_and_grant c mode e.provider_event_id price email d)

unfoldable pub handle_event : Setup → NormalizedEvent → Times → Action (List Subscription) Receipt
unfolding grant_mode match_and_grant
handle_event c e d =
    or_receipt (grant_mode e.type) ignored
      (λ mode. or_receipt (truthy e.provider_price_id) ignored (with_price c e d mode))

abbrev pub signed : Setup → Delivery → Check
signed c v = elim (webhook_secret c) [ none ↦ accepted | some _ ↦ v.verification ]

-- What follows the check of the signature.
abbrev pub by_check : Check → Setup → Delivery → Times → Action (List Subscription) Receipt
by_check accepted c v d = do
  event ← or_raise v.event (api_error 400 "invalid_payload")
  or_receipt event ignored (λ e. handle_event c e d)
by_check rejected c v d = or_raise none (api_error 400 "invalid_signature")
by_check crashed c v d = or_crash none

unfoldable pub billing_webhook : Setup → Delivery → Times → Action (List Subscription) Receipt
unfolding handle_event get_provider webhook_secret
billing_webhook c v d = elim (get_provider c.billing_provider) [
  | none ↦ or_raise none (api_error 502 "unknown_provider")
  | some provider ↦ by_check (signed c v) c v d
]

-- ===== src/Tests/Webhooks.antt =====
-- A Stripe checkout, delivered twice.
use ufuk_ai_agent.Prelude.{ℕ, ◌≡◌, refl, none, some, List, [], ◌∷◌, ◌++◌}
use ufuk_ai_agent.Errors.{ok}
use ufuk_ai_agent.Json.{Value, Fields, field, end, string, object}
use ufuk_ai_agent.Models.{Plan, Subscription}
use ufuk_ai_agent.Subscriptions.Tables.{first}
use ufuk_ai_agent.Subscriptions.{assign_plan}
use ufuk_ai_agent.Billing.Signatures.{rejected}
use ufuk_ai_agent.Billing.{
  NormalizedEvent, subscription_started, Delivery, Setup, Times, assigned, billing_webhook,
}
use ufuk_ai_agent.Billing.Providers.{stripe_parse_event}
use ufuk_ai_agent.Billing.Redelivery.{Receives, billing_webhook-Receives}
use ufuk_ai_agent.Billing.Once.{billing_webhook_once}
use ufuk_ai_agent.Tests.Samples.{paid_plan, row}

abbrev plan : Plan
plan = record paid_plan { stripe_price_id = some "price_1" }

abbrev payload : Fields
payload = field "id" (string "evt_1") (
    field "type" (string "checkout.session.completed") (
      field "data"
        (object (
          field "object"
            (object
              (field "customer_email" (string "a@b.c") (field "price_id" (string "price_1") end)))
            end))
        end))

abbrev event : NormalizedEvent
event = record {
  type = subscription_started;
  provider_event_id = some (string "evt_1");
  provider_price_id = some (string "price_1");
  customer_email = some (string "a@b.c");
}

parsed : stripe_parse_event (object payload) ≡ some (some event)
unfolding stripe_parse_event ufuk_ai_agent.Billing.Providers.event_type
    ufuk_ai_agent.Billing.Providers.lookup ufuk_ai_agent.Billing.Providers.stripe_event
    ufuk_ai_agent.Billing.Providers.stripe_item ufuk_ai_agent.Json.get
parsed = refl

abbrev setup : Setup
setup = record {
  billing_provider = "Stripe";
  billing_webhook_secret = none;
  stripe_webhook_secret = none;
  plans = plan ∷ [];
  accounts = record { id = 7; email = "a@b.c" } ∷ [];
}

abbrev delivery : Delivery
delivery = record { verification = rejected; event = stripe_parse_event (object payload) }

carried : delivery.event ≡ some (some event)
carried = parsed

abbrev at : ℕ → Times
at now = record { now = now; fresh = now; stamp = now; raced = [] }

billing_webhook-Receives_example :
    Receives setup delivery
      (at 5000)
      (row 1 ∷ [])
      (billing_webhook setup delivery (at 5000) (row 1 ∷ []))
billing_webhook-Receives_example = billing_webhook-Receives setup delivery (at 5000) (row 1 ∷ [])

abbrev after : List Subscription
after = (billing_webhook setup delivery (at 5000) (row 1 ∷ [])).1

first_answer : (billing_webhook setup delivery (at 5000) (row 1 ∷ [])).0 ≡ ok (assigned "plus")
unfolding billing_webhook ufuk_ai_agent.Billing.get_provider ufuk_ai_agent.Billing.webhook_secret
    ufuk_ai_agent.Text.lower_eq stripe_parse_event first assign_plan
    ufuk_ai_agent.Billing.Providers.event_type ufuk_ai_agent.Billing.Providers.lookup
    ufuk_ai_agent.Billing.Providers.stripe_event ufuk_ai_agent.Billing.Providers.stripe_item
    ufuk_ai_agent.Json.get
first_answer = refl

second_answer : (billing_webhook setup delivery (at 6000) after).0 ≡ ok (assigned "plus")
unfolding billing_webhook ufuk_ai_agent.Billing.get_provider ufuk_ai_agent.Billing.webhook_secret
    ufuk_ai_agent.Text.lower_eq stripe_parse_event first assign_plan
    ufuk_ai_agent.Billing.Providers.event_type ufuk_ai_agent.Billing.Providers.lookup
    ufuk_ai_agent.Billing.Providers.stripe_event ufuk_ai_agent.Billing.Providers.stripe_item
    ufuk_ai_agent.Json.get
second_answer = refl

billing_webhook_once_example : (billing_webhook setup delivery (at 6000) after).1 ≡ after ++ []
billing_webhook_once_example =
    billing_webhook_once setup setup delivery delivery event event (at 5000) (at 6000) (row 1 ∷ [])
      "plus" "plus" "evt_1" carried carried refl refl first_answer second_answer

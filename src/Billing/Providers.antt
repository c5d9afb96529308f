-- ===== src/Billing/Providers.antt =====
-- `parse_event` of evren-backend/app/services/billing_providers/stripe.py, dodo.py and paddle.py. None is
-- an exception, and `some none` an event that the backend does not act on.
use Prim.Native.String.{String}
use text.Mathlib.Text.{◌==◌ as str_eq}
use ufuk_ai_agent.Prelude.{Option, none, some, List, [], ◌∷◌, if◌then◌else◌}
use ufuk_ai_agent.Json.{
  Value, Fields, end, nil, cons, null, boolean, int, float, string, array, object, get, get_in,
  as_dict,
}
use ufuk_ai_agent.Upstream.{truthy}
use ufuk_ai_agent.Billing.{
  EventType, subscription_started, subscription_renewed, subscription_updated,
  subscription_cancelled, payment_succeeded, payment_failed, NormalizedEvent,
}

unfoldable pub lookup : String → List (String × EventType) → Option EventType
lookup s [] = none
lookup s ((key, type) ∷ types) =
    let rest = lookup s types in if str_eq key s then some type else rest

-- `_EVENT_TYPES.get(event_type)`: a list or a dict is not hashable.
unfoldable pub event_type : List (String × EventType) → Option Value → Option (Option EventType)
unfolding lookup
event_type types none = some none
event_type types (some (string s)) = some (lookup s types)
event_type types (some (array _)) = none
event_type types (some (object _)) = none
event_type types (some null) = some none
event_type types (some (boolean _)) = some none
event_type types (some (int _)) = some none
event_type types (some (float _)) = some none

-- `a or b`
abbrev pub or_value : Option Value → Option Value → Option Value
or_value a b = elim (truthy a) [ some v ↦ some v | none ↦ b ]

abbrev pub dict_or_empty : Option Value → Fields
dict_or_empty v = elim (as_dict v) [ some fs ↦ fs | none ↦ end ]

-- The first item of a list that is a dict.
abbrev pub first_dict : Option Value → Option Fields
first_dict (some (array (cons v vs))) = as_dict (some v)
first_dict (some (array nil)) = none
first_dict (some null) = none
first_dict (some (boolean _)) = none
first_dict (some (int _)) = none
first_dict (some (float _)) = none
first_dict (some (string _)) = none
first_dict (some (object _)) = none
first_dict none = none

abbrev stripe_types : List (String × EventType)
stripe_types =
    ("checkout.session.completed", subscription_started)
    ∷ ("customer.subscription.created", subscription_started)
    ∷ ("customer.subscription.updated", subscription_updated)
    ∷ ("customer.subscription.deleted", subscription_cancelled)
    ∷ ("invoice.paid", subscription_renewed)
    ∷ ("invoice.payment_failed", payment_failed)
    ∷ []

abbrev dodo_types : List (String × EventType)
dodo_types =
    ("subscription.active", subscription_started)
    ∷ ("subscription.renewed", subscription_renewed)
    ∷ ("subscription.updated", subscription_updated)
    ∷ ("subscription.plan_changed", subscription_updated)
    ∷ ("subscription.cancelled", subscription_cancelled)
    ∷ ("subscription.expired", subscription_cancelled)
    ∷ ("payment.succeeded", payment_succeeded)
    ∷ ("payment.failed", payment_failed)
    ∷ []

abbrev paddle_types : List (String × EventType)
paddle_types =
    ("subscription.activated", subscription_started)
    ∷ ("subscription.created", subscription_started)
    ∷ ("subscription.renewed", subscription_renewed)
    ∷ ("subscription.updated", subscription_updated)
    ∷ ("subscription.canceled", subscription_cancelled)
    ∷ ("transaction.completed", payment_succeeded)
    ∷ ("transaction.payment_failed", payment_failed)
    ∷ []

-- The shared head of the three: the payload is a dict, and its type one that is known.
abbrev pub parse_with :
    String
    → List (String × EventType)
    → (EventType → Fields → Option NormalizedEvent)
    → Value
    → Option (Option NormalizedEvent)
parse_with key types build v = elim (as_dict (some v)) [
  | none ↦ none
  | some event ↦ elim (event_type types (get key event)) [
    | none ↦ none
    | some none ↦ some none
    | some (some type) ↦ elim (build type event) [ none ↦ none | some e ↦ some (some e) ]
  ]
]

-- `items[0]`, where `items` is not empty: none where it raises.
unfoldable pub stripe_item : Option Value → Option (Option Fields)
stripe_item none = some none
stripe_item (some (array (cons v vs))) = some (as_dict (some v))
stripe_item (some (string _)) = some none
stripe_item (some (array nil)) = some none
stripe_item (some null) = some none
stripe_item (some (boolean _)) = none
stripe_item (some (int _)) = none
stripe_item (some (float _)) = none
stripe_item (some (object _)) = none

-- `price` of an item: a dict's id, or the value itself.
abbrev pub price_of_item : Option Fields → Option Value
price_of_item none = none
price_of_item (some fs) = elim (as_dict (get "price" fs)) [
  | some price ↦ get "id" price
  | none ↦ get "price" fs
]

abbrev pub stripe_items : Fields → Option Value
stripe_items fs = elim (as_dict (get "items" fs)) [ none ↦ none | some items ↦ get "data" items ]

abbrev pub stripe_price : Fields → Option Value → Option Value
stripe_price fs from_item =
    or_value (or_value from_item (get_in "id" (as_dict (get "price" fs))))
      (or_value (get "price_id" fs) (get "plan_price_id" fs))

unfoldable pub stripe_event : EventType → Fields → Option NormalizedEvent
unfolding stripe_item
stripe_event type event = elim (as_object (get "data" event)) [
  | none ↦ none
  | some body ↦ elim (stripe_item (truthy (stripe_items body))) [
    | none ↦ none
    | some item ↦ some (record {
      type = type;
      provider_event_id = get "id" event;
      provider_price_id = stripe_price body (price_of_item item);
      customer_email =
          or_value (get "customer_email" body)
            (get_in "email" (as_dict (get "customer_details" body)));
    })
  ]
]
  where
    -- `data.object`: an empty dict where there is none, and no dict raises.
    dict_field : Option Value → Option Fields
    dict_field none = some end
    dict_field (some v) = as_dict (some v)

    as_object : Option Value → Option Fields
    as_object v = elim (as_dict v) [ none ↦ some end | some fs ↦ dict_field (get "object" fs) ]

unfoldable pub stripe_parse_event : Value → Option (Option NormalizedEvent)
unfolding event_type stripe_event
stripe_parse_event = parse_with "type" stripe_types stripe_event

unfoldable pub dodo_event : EventType → Fields → Option NormalizedEvent
dodo_event type event =
    let body = dict_or_empty (get "data" event) in
    let customer = dict_or_empty (get "customer" body) in
    some (record {
      type = type;
      provider_event_id = or_value (get "event_id" event) (get "id" event);
      provider_price_id =
          or_value (get "product_id" body)
            (get_in "product_id" (first_dict (get "product_cart" body)));
      customer_email = or_value (get "email" customer) (get "email" body);
    })

unfoldable pub dodo_parse_event : Value → Option (Option NormalizedEvent)
unfolding event_type dodo_event
dodo_parse_event = parse_with "type" dodo_types dodo_event

abbrev pub paddle_price : Option Fields → Option Value
paddle_price none = none
paddle_price (some fs) = elim (as_dict (get "price" fs)) [
  | some price ↦ get "id" price
  | none ↦ get "price_id" fs
]

unfoldable pub paddle_event : EventType → Fields → Option NormalizedEvent
paddle_event type event =
    let body = dict_or_empty (get "data" event) in
    some (record {
      type = type;
      provider_event_id = get "event_id" event;
      provider_price_id = paddle_price (first_dict (get "items" body));
      customer_email =
          or_value (get "email" (dict_or_empty (get "custom_data" body))) (get "email" body);
    })

unfoldable pub paddle_parse_event : Value → Option (Option NormalizedEvent)
unfolding event_type paddle_event
paddle_parse_event = parse_with "event_type" paddle_types paddle_event

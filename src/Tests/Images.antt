-- ===== src/Tests/Images.antt =====
-- A generation on an empty gallery, and a deletion.
use ufuk_ai_agent.Prelude.{ℕ, ◌==◌, ◌≡◌, refl, none, some, [], ◌∷◌, arith}
use ufuk_ai_agent.Errors.{ok}
use ufuk_ai_agent.Json.{Fields, field, end, string, array, object, nil, cons}
use ufuk_ai_agent.Models.{Plan}
use ufuk_ai_agent.Subscriptions.Tables.{first}
use ufuk_ai_agent.Subscriptions.{
  ActiveSubscription, view, get_active_or_rolled_subscription, get_active_subscription,
}
use ufuk_ai_agent.Upstream.{Attempt, answered, response}
use ufuk_ai_agent.Images.{
  high, png, GeneratedImage, Gallery, NewImage, period, charged_sum, image_row, read_file, store,
}
use ufuk_ai_agent.Images.Generate.{Generation, Setup, Input, Times, subscribe, generate_images}
use ufuk_ai_agent.Images.Quota.{Within}
use ufuk_ai_agent.Images.Batch.{generate_images-Within}
use ufuk_ai_agent.Images.Storage.{Stores, store-Stores}
use ufuk_ai_agent.Tests.Samples.{free_plan, row}

-- Ten images a month.
abbrev plan : Plan
plan = record free_plan { monthly_image_quota = some 10 }

abbrev active : ActiveSubscription
active = view plan (row 1)

abbrev empty : Gallery
empty = record { subs = row 1 ∷ []; images = []; files = [] }

abbrev reply : Fields
reply = field "data" (array (cons (object (field "b64_json" (string "aGk=") end)) nil)) end

abbrev upstream : Generation → ℕ → Attempt
upstream payload attempt =
    answered
      (response 200 (some (object reply)) (record { retry_after = none; ratelimit_reset = none }))

abbrev setup : Setup
setup = record { plans = plan ∷ []; decode = λ s. some (104 ∷ 105 ∷ []); upstream = upstream }

abbrev input : Input
input = record { user = 7; prompt = "a boat"; quality = some high; count = some 1; format = none }

abbrev times : Times
times = record {
  now = 2000;
  later = 2001;
  fresh = 90;
  stamp = 91;
  latency_ms = 5;
  image_id = λ i. i;
  created_at = λ i. 3000;
}

subscribed : subscribe setup input times empty ≡ (ok active, empty)
unfolding subscribe get_active_or_rolled_subscription get_active_subscription
    ufuk_ai_agent.Subscriptions.Tables.latest ufuk_ai_agent.Subscriptions.Tables.find_plan
    ufuk_ai_agent.Subscriptions.is_current first
subscribed = refl

unspent : Within 10 7 (period active) empty
unfolding charged_sum
unspent = omega arith

generate_images-Within_example :
    Within 10 7 (period active) (generate_images setup input times empty).1
generate_images-Within_example =
    generate_images-Within setup input times active 10 refl empty empty subscribed unspent

abbrev pub boat : NewImage
boat = record {
  user_id = 7;
  upstream_model_id = "vendor/image";
  prompt = "a boat";
  quality = high;
  image_format = png;
  image_bytes = 104 ∷ 105 ∷ [];
  credits_charged = record { num = 2_000_000; den = 1 };
  plan = some plan;
  period = some (period active);
  upstream_cost_usd = none;
  latency_ms = some 5;
}

unused : first (λ (r : GeneratedImage). r.id == 5) empty.images ≡ none
unfolding first
unused = refl

absent : read_file (image_row boat 5 3000).storage_path empty.files ≡ none
unfolding read_file
absent = refl

store-Stores_example : Stores boat 5 3000 empty (store boat 5 3000 empty)
store-Stores_example = store-Stores boat 5 3000 empty unused absent

abbrev pub filled : Gallery
filled = record empty { images = image_row boat 5 3000 ∷ [] }

pub owned : (image_row boat 5 3000).storage_path.owner ≡ (image_row boat 5 3000).user_id
unfolding image_row
owned = refl

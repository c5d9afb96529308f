-- ===== src/Images/Generate.antt =====
-- `generate_images` of evren-backend/app/routers/images.py, from its checks to the stored rows. `decode`
-- is `base64.b64decode` with `validate`, none where it raises; the ids and the times of the rows that
-- are stored are given by the position of their items.
use Prim.Native.String.{String}
use ufuk_ai_agent.Prelude.{
  ℕ, suc, ◌+◌, ◌*◌, Option, none, some, List, [], ◌∷◌, min, max, or_default, ◌==◌, if◌then◌else◌,
}
use ufuk_ai_agent.Errors.{ApiError, api_error}
use ufuk_ai_agent.Action.{Action, pure, or_raise, or_crash, lift, ◌>>=◌}
use ufuk_ai_agent.Models.{Plan}
use ufuk_ai_agent.Usage.{Amount, Cost}
use ufuk_ai_agent.Json.{Value, Items, nil, cons, get, get_in, as_dict, as_string}
use ufuk_ai_agent.Subscriptions.{ActiveSubscription, get_active_or_rolled_subscription}
use ufuk_ai_agent.Upstream.{
  Attempt, Reply, refused, timeout, http_error, response, send_with_retry, truthy,
}
use ufuk_ai_agent.Gateway.Response.{read_cost}
use ufuk_ai_agent.Images.{
  ImageQuality, standard, Format, GeneratedImage, Gallery, NewImage, micro, period,
  normalize_format, validate_prompt, dimensions_for, image_model_for, max_images_per_request,
  consume_quota, store,
}

-- The payload that is sent.
pub record Generation : Type 0 where
  pub model : String
  pub prompt : String
  pub n : ℕ
  pub size : ℕ × ℕ

pub record Setup : Type 0 where
  pub plans : List Plan
  pub decode : String → Option (List ℕ)
  pub upstream : Generation → ℕ → Attempt

-- `GenerateImageRequest`, after its validation.
pub record Input : Type 0 where
  pub user : ℕ
  pub prompt : String
  pub quality : Option ImageQuality
  pub count : Option ℕ
  pub format : Option String

pub record Times : Type 0 where
  pub now : ℕ
  pub later : ℕ
  pub fresh : ℕ
  pub stamp : ℕ
  pub latency_ms : ℕ
  pub image_id : ℕ → ℕ
  pub created_at : ℕ → ℕ

-- One item of the upstream's answer.
pub data Item : Type 0 where
  skipped : Item
  unsupported : Item
  encoded : String → Item

abbrev pub by_text : Option String → (String → Item) → Item
by_text none f = skipped
by_text (some s) f = f s

unfoldable pub read_item : Value → Item
read_item v = elim (as_dict (some v)) [
  | none ↦ skipped
  | some fs ↦ elim (truthy (get "b64_json" fs)) [
    | some b64 ↦ by_text (as_string (some b64)) encoded
    | none ↦ by_text (as_string (get "url" fs)) (λ _. unsupported)
  ]
]

abbrev pub items_length : Items → ℕ
items_length nil = 0
items_length (cons v vs) = suc (items_length vs)

-- `min(max(body.count or 1, 1), MAX_IMAGES_PER_REQUEST)`
abbrev pub image_count : Option ℕ → ℕ
image_count n = min (max (or_default n 1) 1) max_images_per_request

-- `Decimal(total_credits) / Decimal(len(items))`, in micro-credits.
abbrev pub share : ℕ → ℕ → Amount
share total n = record { num = total * micro; den = n }

-- The items of `data.get("data")`, where they are a list that is not empty.
abbrev pub as_items : Option Value → Option Items
as_items (some (Value.array (cons v vs))) = some (cons v vs)
as_items (some (Value.array nil)) = none
as_items (some Value.null) = none
as_items (some _) = none
as_items none = none

abbrev pub image_empty : ApiError
image_empty = api_error 502 "image_generation_empty"

-- The row of one decoded item, before it is stored.
abbrev pub new_image :
    Input
    → Times
    → ActiveSubscription
    → String
    → Format
    → ImageQuality
    → Amount
    → Option Cost
    → List ℕ
    → NewImage
new_image q d a prompt format quality credits cost bytes = record {
  user_id = q.user;
  upstream_model_id = image_model_for quality;
  prompt = prompt;
  quality = quality;
  image_format = format;
  image_bytes = bytes;
  credits_charged = credits;
  plan = some a.plan;
  period = some (period a);
  upstream_cost_usd = cost;
  latency_ms = some d.latency_ms;
}

-- The loop over the items from position `i` on.
unfoldable pub store_items :
    (String → Option (List ℕ))
    → (List ℕ → NewImage)
    → Times
    → Items
    → ℕ
    → Action Gallery (List GeneratedImage)
unfolding read_item store
store_items decode image d nil i = pure []
store_items decode image d (cons v vs) i =
    let rest = store_items decode image d vs (i + 1) in
    elim (read_item v) [
      | skipped ↦ rest
      | unsupported ↦ or_raise none (api_error 502 "image_generation_unsupported_response")
      | encoded b64 ↦ do
        bytes ← or_raise (decode b64) (api_error 502 "invalid_upstream_image")
        row ← store (image bytes) (d.image_id i) (d.created_at i)
        rows ← rest
        pure (row ∷ rows)
    ]

abbrev pub some_rows : List GeneratedImage → Option (List GeneratedImage)
some_rows [] = none
some_rows (row ∷ rows) = some (row ∷ rows)

-- A 200 with a body.
unfoldable pub store_answer :
    Setup
    → Input
    → Times
    → ActiveSubscription
    → String
    → Format
    → ImageQuality
    → ℕ
    → Option Value
    → Action Gallery (List GeneratedImage)
unfolding store_items
store_answer c q d a prompt format quality total body =
    elim (as_items (get_in "data" (as_dict body))) [
      | none ↦ or_raise none image_empty
      | some items ↦ do
        cost ← or_crash (read_cost (get_in "cost" (as_dict (get_in "usage" (as_dict body)))))
        rows ←
            store_items c.decode
              (new_image q d a prompt format quality (share total (items_length items)) cost) d
              items 0
        or_raise (some_rows rows) image_empty
    ]

unfoldable pub take_reply :
    Setup
    → Input
    → Times
    → ActiveSubscription
    → String
    → Format
    → ImageQuality
    → ℕ
    → Reply
    → Action Gallery (List GeneratedImage)
unfolding store_answer
take_reply c q d a prompt format quality total (refused e) = or_raise none e
take_reply c q d a prompt format quality total timeout = or_crash none
take_reply c q d a prompt format quality total http_error = or_crash none
take_reply c q d a prompt format quality total (response status_code body headers) =
    if status_code == 200
    then (do v ← or_crash body; store_answer c q d a prompt format quality total (some v))
    else or_raise none (api_error 502 "image_generation_failed")

unfoldable pub subscribe : Setup → Input → Times → Action Gallery ActiveSubscription
subscribe c q d g =
    let (found, subs) =
      get_active_or_rolled_subscription c.plans g.subs q.user d.now d.later d.fresh d.stamp in
    or_raise found (api_error 403 "subscription_inactive") (record g { subs = subs })

-- `consume_quota` on the rows as they are.
unfoldable pub check_quota : Input → ActiveSubscription → ImageQuality → ℕ → Action Gallery ℕ
unfolding consume_quota period
check_quota q a quality n g = (consume_quota g.images q.user a.plan quality n (period a), g)

-- The exchange with the upstream.
abbrev pub ask : Setup → Input → String → Reply
ask c q prompt =
    (send_with_retry (
      c.upstream (record {
        model = image_model_for (or_default q.quality standard);
        prompt = prompt;
        n = image_count q.count;
        size = dimensions_for (or_default q.quality standard);
      }))).0

-- `generate_images` for a subscription.
unfoldable pub generate_for :
    Setup → Input → Times → ActiveSubscription → Action Gallery (List GeneratedImage)
unfolding validate_prompt normalize_format check_quota take_reply
generate_for c q d a = do
  prompt ← lift (validate_prompt q.prompt)
  format ← or_raise (normalize_format q.format) (api_error 400 "unsupported_image_format")
  total ← check_quota q a (or_default q.quality standard) (image_count q.count)
  take_reply c q d a prompt format (or_default q.quality standard) total (ask c q prompt)

unfoldable pub generate_images : Setup → Input → Times → Action Gallery (List GeneratedImage)
unfolding subscribe generate_for
generate_images c q d = do a ← subscribe c q d; generate_for c q d a

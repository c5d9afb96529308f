-- ===== src/Images.antt =====
-- evren-backend/app/services/image_service.py and the handlers of evren-backend/app/routers/images.py:
-- the quota of image credits, the stored images, and `generate_images`. Base64 decoding is a parameter;
-- a path is its owner, the image's id and the extension; texts for the reader are left out.
pub mod Generate
pub mod Quota
pub mod Batch
mod Disk
pub mod Storage
pub mod Deletion
use Prim.Native.String.{String, count}
use text.Mathlib.Text.{◌==◌ as str_eq}
use ufuk_ai_agent.Prelude.{
  ℕ, zero, suc, ◌+◌, ◌*◌, ◌/◌, ◌-◌, Bool, true, false, not, ◌&&◌, ◌||◌, ◌==◌, ltb, leb, Option,
  none, some, is_some, List, [], ◌∷◌, ◌++◌, map, sum_by, select, length, min, max, or_default,
  if◌then◌else◌,
}
use ufuk_ai_agent.Prelude.Int.{ℤ, pos}
use ufuk_ai_agent.Errors.{ApiError, Outcome, ok, raise, crash, api_error}
use ufuk_ai_agent.Action.{Action, pure, or_raise, ◌>>=◌, ◌>>◌}
use ufuk_ai_agent.Models.{Plan, Subscription}
use ufuk_ai_agent.Credits.{quantize_credits}
use ufuk_ai_agent.Usage.{Amount, Cost, quantized, quantized_cost}
use ufuk_ai_agent.Json.{
  Value, Fields, Items, nil, cons, null, boolean, int, float, string, array, object, get, as_dict,
  as_string,
}
use ufuk_ai_agent.Subscriptions.Tables.{first}
use ufuk_ai_agent.Subscriptions.{ActiveSubscription, period_key, get_active_or_rolled_subscription}
use ufuk_ai_agent.Upstream.{
  Attempt, Reply, refused, timeout, http_error, response, send_with_retry, truthy,
}
use ufuk_ai_agent.Text.{strip, is_empty, lower_eq}

pub data ImageQuality : Type 0 where
  standard : ImageQuality
  high : ImageQuality
  ultra : ImageQuality

unfoldable pub credit_weight : ImageQuality → ℕ
credit_weight standard = 1
credit_weight high = 2
credit_weight ultra = 8

abbrev pub dimensions_for : ImageQuality → ℕ × ℕ
dimensions_for standard = (1024, 1024)
dimensions_for high = (2048, 2048)
dimensions_for ultra = (4096, 4096)

abbrev pub image_model_for : ImageQuality → String
image_model_for standard = "google/gemini-3.1-flash-lite-image"
image_model_for high = "google/gemini-3.1-flash-image"
image_model_for ultra = "google/gemini-3-pro-image"

abbrev pub max_prompt_length : ℕ
max_prompt_length = 2000

abbrev pub max_images_per_request : ℕ
max_images_per_request = 4

-- The values that `normalize_format` returns.
pub data Format : Type 0 where
  png : Format
  jpeg : Format

abbrev pub truthy_format : Option String → String
truthy_format none = "png"
truthy_format (some String.[]) = "png"
truthy_format (some (String.◌∷◌ c s)) = String.◌∷◌ c s

unfoldable pub normalize_format : Option String → Option Format
unfolding strip lower_eq
normalize_format fmt =
    let value = strip (truthy_format fmt) in
    if lower_eq value "jpg" || lower_eq value "jpeg"
    then some jpeg
    else if lower_eq value "png"
    then some png
    else none

unfoldable pub validate_prompt : String → Outcome String
unfolding strip
validate_prompt prompt =
    let cleaned = strip prompt in
    if is_empty cleaned
    then raise (api_error 400 "empty_image_prompt")
    else if ltb max_prompt_length (count cleaned)
    then raise (api_error 400 "image_prompt_too_long")
    else ok cleaned

-- `BillingPeriod`
pub record BillingPeriod : Type 0 where
  pub key : ℕ
  pub start : ℕ
  pub end : ℕ

unfoldable pub period : ActiveSubscription → BillingPeriod
unfolding period_key
period a = record { key = period_key a; start = a.period_start; end = a.period_end }

pub record StoragePath : Type 0 where
  pub owner : ℕ
  pub image_id : ℕ
  pub format : Format

pub record GeneratedImage : Type 0 where
  pub id : ℕ
  pub user_id : ℕ
  pub upstream_model_id : String
  pub prompt : String
  pub quality : ImageQuality
  pub width : ℕ
  pub height : ℕ
  pub format : Format
  pub storage_path : StoragePath
  pub credits_charged : ℕ
  pub upstream_cost_usd : Option ℤ
  pub latency_ms : Option ℕ
  pub period_key : Option ℕ
  pub created_at : ℕ

-- `_period_scope`, with the user.
unfoldable pub period_scope : ℕ → BillingPeriod → GeneratedImage → Bool
period_scope user p r = r.user_id == user && (elim r.period_key [
  | some key ↦ key == p.key
  | none ↦ leb p.start r.created_at && ltb r.created_at p.end
])

-- `sum(credits_charged)`
unfoldable pub charged_sum : List GeneratedImage → ℕ → BillingPeriod → ℕ
unfolding period_scope
charged_sum rows user p = sum_by (λ r. r.credits_charged) (select (period_scope user p) rows)

pub record ImageQuota : Type 0 where
  pub quota : Option ℕ
  pub used : ℕ
  pub remaining : Option ℕ

abbrev pub micro : ℕ
micro = 1_000_000

unfoldable pub quota_for : List GeneratedImage → ℕ → Plan → BillingPeriod → ImageQuota
unfolding charged_sum
quota_for rows user plan p = elim plan.monthly_image_quota [
  | none ↦ record { quota = none; used = 0; remaining = none }
  | some quota ↦
      let used = charged_sum rows user p / micro in
      record { quota = some quota; used = used; remaining = some (quota - used) }
]

unfoldable pub consume_quota :
    List GeneratedImage → ℕ → Plan → ImageQuality → ℕ → BillingPeriod → Outcome ℕ
unfolding credit_weight quota_for
consume_quota rows user plan quality n p =
    if not (is_some plan.monthly_image_quota)
    then raise (api_error 403 "image_generation_disabled")
    else if ltb n 1 || ltb max_images_per_request n
    then raise (api_error 400 "invalid_image_count")
    else let total = credit_weight quality * n in
      elim (quota_for rows user plan p).remaining [
        | none ↦ ok total
        | some remaining ↦
            if ltb remaining total then raise (api_error 402 "image_quota_exceeded") else ok total
      ]

-- The images root on the disk, by path.
abbrev pub Files : Type 0
Files = List (StoragePath × List ℕ)

abbrev pub same_format : Format → Format → Bool
same_format png png = true
same_format png jpeg = false
same_format jpeg png = false
same_format jpeg jpeg = true

abbrev pub same_path : StoragePath → StoragePath → Bool
same_path p q = p.owner == q.owner && (p.image_id == q.image_id && same_format p.format q.format)

unfoldable pub unlink : StoragePath → Files → Files
unlink p files = select (λ f. not (same_path p f.0)) files

unfoldable pub write_bytes : StoragePath → List ℕ → Files → Files
unfolding unlink
write_bytes p bytes files = (p, bytes) ∷ unlink p files

unfoldable pub read_file : StoragePath → Files → Option (List ℕ)
read_file p [] = none
read_file p ((q, bytes) ∷ files) =
    let rest = read_file p files in if same_path p q then some bytes else rest

pub record Gallery : Type 0 where
  pub subs : List Subscription
  pub images : List GeneratedImage
  pub files : Files

-- The arguments of `ImageService.store`.
pub record NewImage : Type 0 where
  pub user_id : ℕ
  pub upstream_model_id : String
  pub prompt : String
  pub quality : ImageQuality
  pub image_format : Format
  pub image_bytes : List ℕ
  pub credits_charged : Amount
  pub plan : Option Plan
  pub period : Option BillingPeriod
  pub upstream_cost_usd : Option Cost
  pub latency_ms : Option ℕ

abbrev pub period_of : NewImage → Option ℕ
period_of v = elim v.period [ none ↦ none | some p ↦ some p.key ]

unfoldable pub image_row : NewImage → ℕ → ℕ → GeneratedImage
image_row v image_id created_at = record {
  id = image_id;
  user_id = v.user_id;
  upstream_model_id = v.upstream_model_id;
  prompt = v.prompt;
  quality = v.quality;
  width = (dimensions_for v.quality).0;
  height = (dimensions_for v.quality).1;
  format = v.image_format;
  storage_path = record { owner = v.user_id; image_id = image_id; format = v.image_format };
  credits_charged = quantized v.credits_charged;
  upstream_cost_usd = elim v.upstream_cost_usd [ none ↦ none | some c ↦ some (quantized_cost c) ];
  latency_ms = v.latency_ms;
  period_key = period_of v;
  created_at = created_at;
}

-- The check of `store` after the file is written.
unfoldable pub over_quota : List GeneratedImage → NewImage → Bool
unfolding quota_for
over_quota images v = elim v.plan [
  | none ↦ false
  | some plan ↦ elim v.period [
    | none ↦ false
    | some p ↦ elim (quota_for images v.user_id plan p).remaining [
      | none ↦ false
      | some remaining ↦ ltb (remaining * micro * v.credits_charged.den) v.credits_charged.num
    ]
  ]
]

unfoldable pub store : NewImage → ℕ → ℕ → Action Gallery GeneratedImage
unfolding image_row over_quota write_bytes unlink
store v image_id created_at g =
    let row = image_row v image_id created_at in
    let written = write_bytes row.storage_path v.image_bytes g.files in
    if over_quota g.images v
    then (
      raise (api_error 402 "image_quota_exceeded"),
      record g { files = unlink row.storage_path written },
    )
    else (ok row, record g { images = g.images ++ row ∷ []; files = written })

-- The answer of `get_image` for the row that the query found.
unfoldable pub serve_row : Files → Option GeneratedImage → Outcome (Format × List ℕ)
unfolding read_file
serve_row files none = raise (api_error 404 "image_not_found")
serve_row files (some row) = elim (read_file row.storage_path files) [
  | none ↦ raise (api_error 404 "image_data_missing")
  | some bytes ↦ ok (row.format, bytes)
]

abbrev pub owned_image : ℕ → ℕ → GeneratedImage → Bool
owned_image user image_id r = r.id == image_id && r.user_id == user

unfoldable pub get_image : Gallery → ℕ → ℕ → Outcome (Format × List ℕ)
unfolding serve_row
get_image g user image_id = serve_row g.files (first (owned_image user image_id) g.images)

unfoldable pub unlink_all : List GeneratedImage → Files → Files
unfolding unlink
unlink_all [] files = files
unlink_all (r ∷ rows) files = unlink_all rows (unlink r.storage_path files)

-- `delete_for_user`
unfoldable pub delete_for_user : ℕ → Gallery → ℕ × Gallery
unfolding unlink_all
delete_for_user user g =
    let rows = select (λ (r : GeneratedImage). r.user_id == user) g.images in
    (
      length rows,
      record g {
        images = select (λ (r : GeneratedImage). not (r.user_id == user)) g.images;
        files = unlink_all rows g.files;
      },
    )

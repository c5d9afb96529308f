-- ===== src/Upstream.antt =====
-- evren-backend/app/services/upstream.py: the payload that is sent, the second attempt after a failed
-- connection, and the client's view of an upstream error. `str` is Python's text of a JSON value and
-- `parse_date` reads a reset hint that is a text; the HTTP exchange is given by its outcomes.
pub mod Payload
pub mod Errors
use Prim.Native.String.{String}
use text.Mathlib.Text.{◌==◌ as str_eq}
use ufuk_ai_agent.Prelude.{
  ℕ, zero, suc, ◌+◌, ◌*◌, ◌/◌, ◌%◌, Bool, true, false, not, ◌&&◌, ◌||◌, ◌==◌, ltb, leb, Option,
  none, some, is_some, List, [], ◌∷◌, any, max, or_default, if◌then◌else◌,
}
use ufuk_ai_agent.Prelude.Int.{ℤ, pos, negsuc, pos_part, ◌-ℤ◌, ltb_ℤ}
use ufuk_ai_agent.Errors.{ApiError, Outcome, ok, raise, crash, api_error, no_extra}
use ufuk_ai_agent.Tiers.{TierView}
use ufuk_ai_agent.Usage.{Cost}
use ufuk_ai_agent.Json.{
  Value, null, boolean, int, float, string, array, object, Items, nil, cons, Fields, end, field,
  get, put, as_dict, get_in,
}

abbrev pub allowed_request_fields : List String
allowed_request_fields =
    "messages" ∷ "temperature" ∷ "top_p" ∷ "stop" ∷ "max_tokens" ∷ "tools" ∷ "tool_choice"
    ∷ "response_format" ∷ "n" ∷ "presence_penalty" ∷ "frequency_penalty" ∷ "seed" ∷ "logit_bias"
    ∷ "parallel_tool_calls" ∷ "logprobs" ∷ "top_logprobs" ∷ "session_id" ∷ []

-- `field in ALLOWED_REQUEST_FIELDS and field != "max_tokens"`
unfoldable pub is_forwarded : String → Bool
is_forwarded key = any (str_eq key) allowed_request_fields && not (str_eq key "max_tokens")

unfoldable pub keep_allowed : Fields → Fields
keep_allowed end = end
keep_allowed (field key v fs) =
    let rest = keep_allowed fs in if is_forwarded key then field key v rest else rest

abbrev pub strings : List String → Items
strings [] = nil
strings (s ∷ ss) = cons (string s) (strings ss)

-- The router plugin of a tier, with the models that it may choose from.
unfoldable pub plugin : String → List String → Fields
plugin id chain =
    if str_eq id "auto-router"
    then field "id" (string id)
        (field "costTier" (string "low") (field "allowed_models" (array (strings chain)) end))
    else if str_eq id "pareto-router"
    then field "id" (string id) (
        field "minCodingScore" (float (record { num = pos 330_000; den = 1 }))
          (field "allowed_models" (array (strings chain)) end))
    else field "id" (string id) end

abbrev pub truthy_text : Option String → Option String
truthy_text none = none
truthy_text (some String.[]) = none
truthy_text (some (String.◌∷◌ c s)) = some (String.◌∷◌ c s)

abbrev pub model_chain : TierView → List String
model_chain tier = tier.upstream_model_id ∷ tier.fallback_model_ids

abbrev pub put_models : TierView → Fields → Fields
put_models tier payload = elim tier.fallback_model_ids [
  | [] ↦ put "model" (string tier.upstream_model_id) payload
  | _ ∷ _ ↦ put "models" (array (strings (model_chain tier))) payload
]

abbrev pub put_plugins : List String → Option String → Fields → Fields
put_plugins chain none payload = payload
put_plugins chain (some id) payload =
    put "plugins" (array (cons (object (plugin id chain)) nil)) payload

-- `_apply_routing`
unfoldable pub apply_routing : TierView → Fields → Fields
apply_routing tier payload =
    put_plugins (model_chain tier) (truthy_text tier.routing_plugin) (put_models tier payload)

-- `body.get("stream") is True`
abbrev pub is_true : Option Value → Bool
is_true (some (boolean b)) = b
is_true (some null) = false
is_true (some _) = false
is_true none = false

unfoldable pub sanitize_request : TierView → ℕ → Fields → Fields
unfolding keep_allowed apply_routing
sanitize_request tier max_output_tokens body =
    let payload =
      put "max_tokens" (int (pos max_output_tokens)) (apply_routing tier (keep_allowed body)) in
    if is_true (get "stream" body)
    then put "stream_options" (object (field "include_usage" (boolean true) end))
        (put "stream" (boolean true) payload)
    else payload

-- A number in a header: what `int(float(…))` makes of it, or which exception it raises.
pub data HeaderNumber : Type 0 where
  whole : ℤ → HeaderNumber
  not_a_number : HeaderNumber
  infinite : HeaderNumber

pub record Headers : Type 0 where
  pub retry_after : Option HeaderNumber
  pub ratelimit_reset : Option String

-- How an exchange with the upstream ends. The body is none where it is no JSON.
pub data Reply : Type 0 where
  refused : ApiError → Reply
  timeout : Reply
  http_error : Reply
  response : ℕ → Option Value → Headers → Reply

-- One call of `send`; `connect_error` is one of `CONNECT_ERRORS`.
pub data Attempt : Type 0 where
  connect_error : Attempt
  answered : Reply → Attempt

abbrev pub unreachable : Reply
unreachable = refused (api_error 502 "upstream_unavailable")

-- The loop of `_send_with_retry` from attempt `i` on with `left` attempts to go, and the number of
-- requests sent.
unfoldable pub send_from : (ℕ → Attempt) → ℕ → ℕ → Reply × ℕ
send_from send i zero = (unreachable, 0)
send_from send i (suc left) =
    let (rest, sent) = send_from send (i + 1) left in
    elim (send i) [ answered reply ↦ (reply, 1) | connect_error ↦ (rest, sent + 1) ]

unfoldable pub send_with_retry : (ℕ → Attempt) → Reply × ℕ
unfolding send_from
send_with_retry send = send_from send 0 2

-- `datetime.fromtimestamp`, in microseconds: half a microsecond rounds to even, and a time outside
-- the years 1 to 9999 raises.
abbrev pub round_half_even : ℕ → ℕ → ℕ
round_half_even num den =
    if ltb (2 * (num % den)) den
    then num / den
    else if ltb den (2 * (num % den))
    then num / den + 1
    else num / den + (num / den) % 2

abbrev pub in_years : ℤ → Option ℤ
in_years t =
    if ltb_ℤ t (negsuc 62_135_596_799_999_999)
    then none
    else if ltb_ℤ (pos 253_402_300_799_999_999) t
    then none
    else some t

abbrev pub negated : ℕ → ℤ
negated n = pos 0 -ℤ pos n

unfoldable pub from_timestamp : Cost → Option ℤ
from_timestamp c = elim c.num [
  | pos n ↦ in_years (pos (round_half_even n c.den))
  | negsuc n ↦ in_years (negated (round_half_even (suc n) c.den))
]

abbrev pub seconds : ℤ → Cost
seconds (pos n) = record { num = pos (n * 1_000_000); den = 1 }
seconds (negsuc n) = record { num = negated (suc n * 1_000_000); den = 1 }

module _ (parse_date : String → Option ℤ) where
  -- `_parse_resets_at`
  unfoldable pub parse_resets_at : Option Value → Option ℤ
  unfolding from_timestamp
  parse_resets_at none = none
  parse_resets_at (some null) = none
  parse_resets_at (some (boolean _)) = none
  parse_resets_at (some (int n)) = from_timestamp (seconds n)
  parse_resets_at (some (float c)) = from_timestamp c
  parse_resets_at (some (string s)) = parse_date s
  parse_resets_at (some (array _)) = none
  parse_resets_at (some (object _)) = none

  abbrev pub first_date : List (Option Value) → Option ℤ
  first_date [] = none
  first_date (v ∷ vs) =
      let rest = first_date vs in elim (parse_resets_at v) [ some t ↦ some t | none ↦ rest ]

  -- `_find_body_resets_at`
  unfoldable pub find_body_resets_at : Option Value → Option ℤ
  unfolding parse_resets_at
  find_body_resets_at parsed = elim (as_dict parsed) [
    | none ↦ none
    | some body ↦ elim (as_dict (get "error" body)) [
      | none ↦ first_date (get "resets_at" body ∷ get "reset_at" body ∷ [])
      | some error ↦ first_date (
          get "resets_at" error
          ∷ get "reset_at" error
          ∷ get "resets_at" body
          ∷ get "reset_at" body
          ∷ [])
    ]
  ]

  -- The seconds until a reset, rounded up, one at least.
  abbrev pub seconds_until : ℤ → ℤ → ℕ
  seconds_until now t = max ((pos_part (t -ℤ now) + 999_999) / 1_000_000) 1

  abbrev pub rate_limited : Option ℤ → ℕ → ApiError
  rate_limited resets_at retry_after = record (api_error 429 "rate_limited") {
    retry_after = some retry_after;
    extra = record no_extra { resets_at = resets_at };
  }

  abbrev pub header_reset : Headers → Option ℤ → Option ℤ
  header_reset headers (some t) = some t
  header_reset headers none = elim headers.ratelimit_reset [
    | none ↦ none
    | some s ↦ parse_resets_at (some (string s))
  ]

  -- Without a usable Retry-After: the reset decides, or thirty seconds.
  abbrev pub by_reset : ℤ → Option ℤ → ApiError
  by_reset now none = rate_limited none 30
  by_reset now (some t) = rate_limited (some t) (seconds_until now t)

  -- The branch of a 429.
  unfoldable pub rate_limit_error : ℤ → Option Value → Headers → Outcome ApiError
  unfolding find_body_resets_at
  rate_limit_error now parsed headers =
      let resets_at = find_body_resets_at parsed in
      elim headers.retry_after [
        | none ↦ ok (by_reset now (header_reset headers resets_at))
        | some not_a_number ↦ ok (by_reset now (header_reset headers resets_at))
        | some infinite ↦ crash
        | some (whole n) ↦ ok (rate_limited resets_at (pos_part n))
      ]

-- Python's truth of a JSON value.
abbrev pub truthy : Option Value → Option Value
truthy none = none
truthy (some null) = none
truthy (some (boolean true)) = some (boolean true)
truthy (some (boolean false)) = none
truthy (some (int (pos ℕ.zero))) = none
truthy (some (int (pos (suc n)))) = some (int (pos (suc n)))
truthy (some (int (negsuc n))) = some (int (negsuc n))
truthy (some (float c)) = elim c.num [
  | pos ℕ.zero ↦ none
  | pos (suc _) ↦ some (float c)
  | negsuc _ ↦ some (float c)
]
truthy (some (string String.[])) = none
truthy (some (string (String.◌∷◌ c s))) = some (string (String.◌∷◌ c s))
truthy (some (array nil)) = none
truthy (some (array (cons v vs))) = some (array (cons v vs))
truthy (some (object end)) = none
truthy (some (object (field k v fs))) = some (object (field k v fs))

module _ (str : Value → String) (parse_date : String → Option ℤ) where
  abbrev pub bad_request_code : Option Value → String
  bad_request_code parsed =
      elim (truthy (get_in "code" (as_dict (get_in "error" (as_dict parsed))))) [
        | none ↦ "upstream_bad_request"
        | some code ↦ str code
      ]

  -- `normalize_upstream_error`; a crash is an exception that it does not catch.
  unfoldable pub normalize_upstream_error : ℤ → ℕ → Option Value → Headers → Outcome ApiError
  unfolding rate_limit_error
  normalize_upstream_error now status_code parsed headers =
      if status_code == 400
      then ok (api_error 400 (bad_request_code parsed))
      else if status_code == 401 || status_code == 403
      then ok (api_error 502 "upstream_auth_error")
      else if status_code == 429
      then rate_limit_error parse_date now parsed headers
      else if status_code == 408
      then ok (api_error 504 "timeout")
      else ok (api_error 502 "upstream_error")

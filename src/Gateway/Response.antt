-- ===== src/Gateway/Response.antt =====
-- What the gateway reads out of the upstream's JSON body, and what it hands to the client.
pub mod Privacy
use Prim.Native.String.{String}
use ufuk_ai_agent.Prelude.{
  ℕ, suc, ◌*◌, ◌-◌, Bool, true, false, not, ◌&&◌, Option, none, some, is_some, if◌then◌else◌,
}
use ufuk_ai_agent.Prelude.Int.{ℤ, pos, negsuc}
use ufuk_ai_agent.Usage.{Cost}
use ufuk_ai_agent.Estimate.{concat, estimate_tokens}
use ufuk_ai_agent.Json.{
  Value, null, boolean, int, float, string, array, object, Items, nil, cons, Fields, end, field,
  get, delete, put, as_dict, as_string, as_int, get_in, iterate, int_or_zero,
}

-- `_strip_protected_usage`: deletes `evren` and `cost` from the usage object. True if changed.
unfoldable pub strip_protected_usage : Fields → Bool × Fields
strip_protected_usage obj = elim (as_dict (get "usage" obj)) [
  | none ↦ (false, obj)
  | some usage ↦ (
    if is_some (get "evren" usage) then true else is_some (get "cost" usage),
    put "usage" (object (delete "cost" (delete "evren" usage))) obj,
  )
]

-- `Decimal(str(cost))` where the cost is a number. `Decimal("True")` raises.
unfoldable pub read_cost : Option Value → Option (Option Cost)
read_cost (some (int (pos n))) = some (some (record { num = pos (n * 1_000_000); den = 1 }))
read_cost (some (int (negsuc n))) =
    some (some (record { num = negsuc (suc n * 1_000_000 - 1); den = 1 }))
read_cost (some (float c)) = some (some c)
read_cost (some (boolean b)) = none
read_cost (some null) = some none
read_cost (some (string s)) = some none
read_cost (some (array xs)) = some none
read_cost (some (object fs)) = some none
read_cost none = some none

-- The first choice's text `finish_reason`.
unfoldable pub first_finish_reason : Items → Option String
first_finish_reason nil = none
first_finish_reason (cons choice choices) =
    let rest = first_finish_reason choices in
    elim (as_string (get_in "finish_reason" (as_dict (some choice)))) [
      | some reason ↦ some reason
      | none ↦ rest
    ]

abbrev pub text_or_empty : Option String → String
text_or_empty none = String.[]
text_or_empty (some s) = s

-- The arguments of the tool calls of a message.
unfoldable pub tool_arguments : Items → String
tool_arguments nil = String.[]
tool_arguments (cons call calls) =
    concat
      (text_or_empty
        (as_string (get_in "arguments" (as_dict (get_in "function" (as_dict (some call)))))))
      (tool_arguments calls)

-- The texts of one message: content, the two reasoning fields, tool arguments.
unfoldable pub message_text : Fields → Option String
unfolding tool_arguments
message_text message = elim (iterate (get "tool_calls" message)) [
  | none ↦ none
  | some calls ↦ some (
      concat (text_or_empty (as_string (get "content" message))) (
        concat (text_or_empty (as_string (get "reasoning" message))) (
          concat (text_or_empty (as_string (get "reasoning_content" message)))
            (tool_arguments calls))))
]

abbrev pub join : Option String → Option String → Option String
join none t = none
join (some s) none = none
join (some s) (some t) = some (concat s t)

unfoldable pub choices_text : Items → Option String
unfolding message_text
choices_text nil = some String.[]
choices_text (cons choice choices) =
    let rest = choices_text choices in
    elim (as_dict (get_in "message" (as_dict (some choice)))) [
      | none ↦ rest
      | some message ↦ join (message_text message) rest
    ]

-- `_extract_completion_text`
unfoldable pub extract_completion_text : Fields → Option String
unfolding choices_text
extract_completion_text obj = elim (iterate (get "choices" obj)) [
  | none ↦ none
  | some choices ↦ choices_text choices
]

-- `_extract_selected_model`
unfoldable pub extract_selected_model : Fields → String → String
extract_selected_model obj upstream_model_id = elim (as_string (get "model" obj)) [
  | none ↦ upstream_model_id
  | some String.[] ↦ upstream_model_id
  | some (String.◌∷◌ c s) ↦ String.◌∷◌ c s
]

-- The token counts and labels that settlement gets from a body.
pub record Reading : Type 0 where
  pub prompt_tokens : ℤ
  pub completion_tokens : ℤ
  pub estimated : Bool
  pub cached_prompt_tokens : ℤ
  pub cache_write_tokens : ℤ
  pub reasoning_tokens : ℤ
  pub upstream_cost_usd : Option Cost
  pub selected_model_id : Option String
  pub finish_reason : Option String

-- `x` if it is an integer, else the fallback.
abbrev pub int_or : Option ℤ → ℤ → ℤ
int_or none d = d
int_or (some n) d = n

-- The completion's tokens: reported, or estimated from its text.
unfoldable pub completion_count : (Option (String → ℕ)) → Fields → Option ℤ → Option ℤ
completion_count encoder obj (some n) = some n
completion_count encoder obj none = elim (extract_completion_text obj) [
  | none ↦ none
  | some s ↦ some (pos (estimate_tokens encoder s))
]

-- The part of `chat_completions` between `response.json()` and `_finalize_event`, for a body that is
-- a JSON object. `none` is an exception on the way.
unfoldable pub read_body : Option (String → ℕ) → ℕ → String → Fields → Option Reading
read_body encoder est_prompt upstream_model_id obj =
    let usage = as_dict (get "usage" obj) in
    let details = as_dict (get_in "prompt_tokens_details" usage) in
    let comp_details = as_dict (get_in "completion_tokens_details" usage) in
    let prompt = as_int (get_in "prompt_tokens" usage) in
    let completion = as_int (get_in "completion_tokens" usage) in
    elim (read_cost (get_in "cost" usage)) [
      | none ↦ none
      | some cost ↦ elim (iterate (get "choices" obj)) [
        | none ↦ none
        | some choices ↦ elim (int_or_zero (get_in "cached_tokens" details)) [
          | none ↦ none
          | some cached ↦ elim (int_or_zero (get_in "cache_write_tokens" details)) [
            | none ↦ none
            | some written ↦ elim (completion_count encoder obj completion) [
              | none ↦ none
              | some completed ↦ some (record {
                prompt_tokens = int_or prompt (pos est_prompt);
                completion_tokens = completed;
                estimated = not (is_some prompt && is_some completion);
                cached_prompt_tokens = cached;
                cache_write_tokens = written;
                reasoning_tokens = int_or (as_int (get_in "reasoning_tokens" comp_details)) (pos 0);
                upstream_cost_usd = cost;
                selected_model_id = some (extract_selected_model obj upstream_model_id);
                finish_reason = first_finish_reason choices;
              })
            ]
          ]
        ]
      ]
    ]

-- The body that the client receives: stripped, under the tier's alias.
unfoldable pub client_body : String → Fields → Fields
client_body alias obj = put "model" (string alias) (strip_protected_usage obj).1

-- ===== src/Gateway/Scanner.antt =====
-- `SseUsageScanner`, what a streamed response is settled by, and the breaker's reading of a status. A
-- line is the JSON value of its payload, or none where the line is skipped: no `data:` line, an empty
-- one, the end marker, or no JSON.
pub mod Usage
use Prim.Native.String.{String}
use ufuk_ai_agent.Prelude.{
  ℕ, ◌+◌, ◌/◌, Bool, true, false, not, ◌&&◌, ◌||◌, ◌==◌, Option, none, some, is_some, List, [], ◌∷◌,
  max, if◌then◌else◌,
}
use ufuk_ai_agent.Prelude.Int.{ℤ, pos}
use ufuk_ai_agent.Estimate.{chars}
use ufuk_ai_agent.Json.{
  Value, object, null, boolean, int, float, string, array, Items, nil, cons, Fields, get, as_dict,
  as_string, as_int, get_in, iterate,
}
use ufuk_ai_agent.Limits.Breaker
use ufuk_ai_agent.Limits.Breaker.{Breaker, record_success, record_failure}
use ufuk_ai_agent.Usage.{Cost}
use ufuk_ai_agent.Gateway.Response.{Reading, read_cost}

pub record Scanner : Type 0 where
  pub content_chars : ℕ
  pub prompt_tokens : Option ℤ
  pub completion_tokens : Option ℤ
  pub cached_prompt_tokens : ℤ
  pub cache_write_tokens : ℤ
  pub reasoning_tokens : ℤ
  pub upstream_cost_usd : Option Cost
  pub selected_model_id : Option String
  pub finish_reason : Option String
  pub usage_seen : Bool

-- `__init__`
abbrev pub fresh_scanner : Scanner
fresh_scanner = record {
  content_chars = 0;
  prompt_tokens = none;
  completion_tokens = none;
  cached_prompt_tokens = pos 0;
  cache_write_tokens = pos 0;
  reasoning_tokens = pos 0;
  upstream_cost_usd = none;
  selected_model_id = none;
  finish_reason = none;
  usage_seen = false;
}

-- `if isinstance(new, …): field = new`
abbrev pub over {ℓ} : {A : Type ℓ} → Option A → Option A → Option A
over none old = old
over (some new) old = some new

abbrev pub over_int : Option ℤ → ℤ → ℤ
over_int none old = old
over_int (some new) old = new

abbrev pub length_of : Option String → ℕ
length_of none = 0
length_of (some s) = chars s

-- What follows runs where no exception was raised.
abbrev pub and_then : Bool × Scanner → (Scanner → Bool × Scanner) → Bool × Scanner
and_then (false, s) k = (false, s)
and_then (true, s) k = k s

-- The part of the usage object after the cost.
unfoldable pub feed_details : Fields → Scanner → Scanner
feed_details usage s =
    let details = as_dict (get "prompt_tokens_details" usage) in
    let comp_details = as_dict (get "completion_tokens_details" usage) in
    record s {
      cached_prompt_tokens =
          over_int (as_int (get_in "cached_tokens" details)) s.cached_prompt_tokens;
      cache_write_tokens =
          over_int (as_int (get_in "cache_write_tokens" details)) s.cache_write_tokens;
      reasoning_tokens =
          over_int (as_int (get_in "reasoning_tokens" comp_details)) s.reasoning_tokens;
      usage_seen = is_some s.prompt_tokens && is_some s.completion_tokens;
    }

-- The usage object. The answer is false where an exception ends the line there.
unfoldable pub feed_usage : Option Fields → Scanner → Bool × Scanner
unfolding feed_details
feed_usage none s = (true, s)
feed_usage (some usage) s =
    let counted = record s {
      prompt_tokens = over (as_int (get "prompt_tokens" usage)) s.prompt_tokens;
      completion_tokens = over (as_int (get "completion_tokens" usage)) s.completion_tokens;
    } in
    elim (read_cost (get "cost" usage)) [
      | none ↦ (false, counted)
      | some cost ↦ (
        true,
        feed_details usage (record counted { upstream_cost_usd = over cost s.upstream_cost_usd }),
      )
    ]

-- The characters of the tool calls' arguments.
unfoldable pub argument_chars : Items → ℕ
argument_chars nil = 0
argument_chars (cons call calls) =
    length_of (as_string (get_in "arguments" (as_dict (get_in "function" (as_dict (some call))))))
    + argument_chars calls

unfoldable pub feed_delta : Fields → Scanner → Bool × Scanner
unfolding argument_chars
feed_delta delta s =
    let told = record s {
      content_chars =
          s.content_chars
          + length_of (as_string (get "content" delta))
          + length_of (as_string (get "reasoning" delta))
          + length_of (as_string (get "reasoning_content" delta));
    } in
    elim (iterate (get "tool_calls" delta)) [
      | none ↦ (false, told)
      | some calls ↦
          (true, record told { content_chars = told.content_chars + argument_chars calls })
    ]

-- `if isinstance(reason, str) and self.finish_reason is None`
abbrev pub keep_first : Option String → Option String → Option String
keep_first none new = new
keep_first (some old) new = some old

unfoldable pub feed_choice : Value → Scanner → Bool × Scanner
unfolding feed_delta
feed_choice choice s = elim (as_dict (some choice)) [
  | none ↦ (true, s)
  | some fields ↦
      let ended = record s {
        finish_reason = keep_first s.finish_reason (as_string (get "finish_reason" fields));
      } in
      elim (as_dict (get "delta" fields)) [
        | none ↦ (true, ended)
        | some delta ↦ feed_delta delta ended
      ]
]

unfoldable pub feed_choices : Items → Scanner → Bool × Scanner
unfolding feed_choice
feed_choices nil s = (true, s)
feed_choices (cons choice choices) s = and_then (feed_choice choice s) (feed_choices choices)

-- `for choice in obj.get("choices") or []`
abbrev pub feed_iterated : Option Items → Scanner → Bool × Scanner
feed_iterated none s = (false, s)
feed_iterated (some choices) s = feed_choices choices s

unfoldable pub feed_object : Fields → Scanner → Bool × Scanner
unfolding feed_usage feed_choices
feed_object obj s =
    let named = record s {
      selected_model_id = over (as_string (get "model" obj)) s.selected_model_id;
    } in
    and_then (feed_usage (as_dict (get "usage" obj)) named)
      (feed_iterated (iterate (get "choices" obj)))

-- `feed_line`
unfoldable pub feed_line : Option Value → Scanner → Bool × Scanner
unfolding feed_object
feed_line line s = elim (as_dict line) [ none ↦ (true, s) | some obj ↦ feed_object obj s ]

-- The loop of `stream_sse_events` over the lines that arrive; an exception ends it.
unfoldable pub feed_lines : List (Option Value) → Scanner → Bool × Scanner
unfolding feed_line
feed_lines [] s = (true, s)
feed_lines (line ∷ lines) s = and_then (feed_line line s) (feed_lines lines)

unfoldable pub completion_estimate : Scanner → ℕ
completion_estimate s = max 1 ((s.content_chars + 3) / 4)

-- `_finalize_partial`, run however the stream ends.
unfoldable pub partial_reading : ℕ → Scanner → Reading
unfolding completion_estimate
partial_reading est_prompt s = record {
  prompt_tokens = over_int s.prompt_tokens (pos est_prompt);
  completion_tokens = over_int s.completion_tokens (pos (completion_estimate s));
  estimated = not s.usage_seen;
  cached_prompt_tokens = s.cached_prompt_tokens;
  cache_write_tokens = s.cache_write_tokens;
  reasoning_tokens = s.reasoning_tokens;
  upstream_cost_usd = s.upstream_cost_usd;
  selected_model_id = s.selected_model_id;
  finish_reason = s.finish_reason;
}

-- `_record_breaker_outcome`
unfoldable pub record_breaker_outcome : Breaker.Config → Breaker → ℕ → ℕ → Breaker
record_breaker_outcome c b status_code clock =
    if status_code == 200
      || (status_code == 400 || (status_code == 402 || (status_code == 422 || status_code == 429)))
    then record_success b
    else record_failure c b clock

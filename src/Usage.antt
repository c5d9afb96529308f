-- ===== src/Usage.antt =====
-- evren-backend/app/services/usage_service.py: the settlement of a usage event and the daily cost
-- rollup that is folded in the same transaction.
pub mod Settle
pub mod Totals
pub mod Report
use Prim.Native.String.{String}
use text.Mathlib.Text.{◌==◌ as str_eq}
use ufuk_ai_agent.Prelude.{
  ℕ, suc, ◌+◌, ◌/◌, Bool, true, false, ◌&&◌, Option, none, some, List, [], ◌∷◌, ◌==◌, or_default,
  if◌then◌else◌,
}
use ufuk_ai_agent.Prelude.Int.{ℤ, pos, negsuc, ◌+ℤ◌, ◌-ℤ◌}
use ufuk_ai_agent.Models.{
  UsageEvent, UsageStatus, reserved, settled, failed, cancelled, microseconds_per_day,
}
use ufuk_ai_agent.Credits.{quantize_credits}
use ufuk_ai_agent.Subscriptions.Tables.{first}

-- A non-negative `Decimal`, as a fraction of its micro-unit.
pub record Amount : Type 0 where
  pub num : ℕ
  pub den : ℕ

abbrev pub quantized : Amount → ℕ
quantized a = quantize_credits a.num a.den

-- A `Decimal` of either sign, as the upstream's cost is; half rounds away from zero.
pub record Cost : Type 0 where
  pub num : ℤ
  pub den : ℕ

abbrev pub quantized_cost : Cost → ℤ
quantized_cost c = elim c.num [
  | pos n ↦ pos (quantize_credits n c.den)
  | negsuc n ↦ pos 0 -ℤ pos (quantize_credits (suc n) c.den)
]

-- `CostDailyRollup`
pub record Rollup : Type 0 where
  pub day : ℕ
  pub user_id : Option ℕ
  pub tier_alias : String
  pub selected_model_id : Option String
  pub requests : ℕ
  pub prompt_tokens : ℤ
  pub completion_tokens : ℤ
  pub cached_prompt_tokens : ℤ
  pub cache_write_tokens : ℤ
  pub reasoning_tokens : ℤ
  pub credits_charged : ℕ
  pub upstream_cost_usd : ℤ

-- The arguments of `settle_usage_event`.
pub record Settlement : Type 0 where
  pub event_id : ℕ
  pub prompt_tokens : Option ℤ
  pub completion_tokens : Option ℤ
  pub credits : Option Amount
  pub estimated : Bool
  pub latency_ms : Option ℕ
  pub status : UsageStatus
  pub upstream_cost_usd : Option Cost
  pub cached_prompt_tokens : ℤ
  pub cache_write_tokens : ℤ
  pub reasoning_tokens : ℤ
  pub selected_model_id : Option String
  pub parent_request_id : Option ℕ
  pub session_id : Option String
  pub finish_reason : Option String

abbrev pub is_reserved : UsageStatus → Bool
is_reserved reserved = true
is_reserved settled = false
is_reserved failed = false
is_reserved cancelled = false

abbrev pub is_settled : UsageStatus → Bool
is_settled reserved = false
is_settled settled = true
is_settled failed = false
is_settled cancelled = false

-- `if value is not None: values[column] = value`
abbrev pub overwrite {ℓ} : {A : Type ℓ} → Option A → Option A → Option A
overwrite none old = old
overwrite (some new) old = some new

-- The row under the `values` of the update.
unfoldable pub apply_values : Settlement → UsageEvent → UsageEvent
apply_values v e = record e {
  prompt_tokens = v.prompt_tokens;
  completion_tokens = v.completion_tokens;
  credits_charged = elim v.credits [ none ↦ e.credits_charged | some a ↦ quantized a ];
  estimated = v.estimated;
  status = v.status;
  latency_ms = v.latency_ms;
  upstream_cost_usd = elim v.upstream_cost_usd [
    | none ↦ e.upstream_cost_usd
    | some c ↦ some (quantized_cost c)
  ];
  cached_prompt_tokens = v.cached_prompt_tokens;
  cache_write_tokens = v.cache_write_tokens;
  reasoning_tokens = v.reasoning_tokens;
  selected_model_id = overwrite v.selected_model_id e.selected_model_id;
  parent_request_id = overwrite v.parent_request_id e.parent_request_id;
  session_id = overwrite v.session_id e.session_id;
  finish_reason = overwrite v.finish_reason e.finish_reason;
}

-- `where(UsageEvent.id == event_id, UsageEvent.status == RESERVED)`
abbrev pub is_open_event : ℕ → UsageEvent → Bool
is_open_event id e = e.id == id && is_reserved e.status

-- The update and its `rowcount`.
unfoldable pub update_open : Settlement → List UsageEvent → List UsageEvent
unfolding apply_values
update_open v [] = []
update_open v (e ∷ events) =
    (if is_open_event v.event_id e then apply_values v e else e) ∷ update_open v events

unfoldable pub count_open : ℕ → List UsageEvent → ℕ
count_open id [] = 0
count_open id (e ∷ events) = (if is_open_event id e then 1 else 0) + count_open id events

-- SQL's equality in a unique constraint: NULL conflicts with nothing.
abbrev pub same_user : Option ℕ → Option ℕ → Bool
same_user (some a) (some b) = a == b
same_user _ _ = false

abbrev pub same_model : Option String → Option String → Bool
same_model (some a) (some b) = str_eq a b
same_model _ _ = false

unfoldable pub conflicts : Rollup → Rollup → Bool
conflicts new old =
    old.day == new.day
    && (same_user old.user_id new.user_id
        && (str_eq old.tier_alias new.tier_alias
            && same_model old.selected_model_id new.selected_model_id))

-- The `set_` of `on_conflict_do_update`.
unfoldable pub fold_in : Rollup → Rollup → Rollup
fold_in new old = record old {
  requests = old.requests + 1;
  prompt_tokens = old.prompt_tokens +ℤ new.prompt_tokens;
  completion_tokens = old.completion_tokens +ℤ new.completion_tokens;
  cached_prompt_tokens = old.cached_prompt_tokens +ℤ new.cached_prompt_tokens;
  cache_write_tokens = old.cache_write_tokens +ℤ new.cache_write_tokens;
  reasoning_tokens = old.reasoning_tokens +ℤ new.reasoning_tokens;
  credits_charged = old.credits_charged + new.credits_charged;
  upstream_cost_usd = old.upstream_cost_usd +ℤ new.upstream_cost_usd;
}

unfoldable pub upsert : Rollup → List Rollup → List Rollup
unfolding conflicts fold_in
upsert new [] = new ∷ []
upsert new (old ∷ rollups) =
    if conflicts new old then fold_in new old ∷ rollups else old ∷ upsert new rollups

abbrev pub quantized_or_zero : Option Amount → ℕ
quantized_or_zero none = 0
quantized_or_zero (some a) = quantized a

-- The row that `_rollup_settled_event` inserts for an event.
unfoldable pub rollup_row : Settlement → UsageEvent → Rollup
rollup_row v e = record {
  day = e.created_at / microseconds_per_day;
  user_id = e.user_id;
  tier_alias = e.tier_alias;
  selected_model_id = v.selected_model_id;
  requests = 1;
  prompt_tokens = or_default v.prompt_tokens (pos 0);
  completion_tokens = or_default v.completion_tokens (pos 0);
  cached_prompt_tokens = v.cached_prompt_tokens;
  cache_write_tokens = v.cache_write_tokens;
  reasoning_tokens = v.reasoning_tokens;
  credits_charged = quantized_or_zero v.credits;
  upstream_cost_usd = elim v.upstream_cost_usd [ none ↦ pos 0 | some c ↦ quantized_cost c ];
}

-- `_rollup_settled_event`, on the updated events.
unfoldable pub rollup_settled_event : Settlement → List UsageEvent → List Rollup → List Rollup
unfolding rollup_row
rollup_settled_event v events rollups = elim (first (λ e. e.id == v.event_id) events) [
  | none ↦ rollups
  | some e ↦ upsert (rollup_row v e) rollups
]

unfoldable pub settle_usage_event :
    List UsageEvent → List Rollup → Settlement → Bool × List UsageEvent × List Rollup
unfolding update_open count_open
settle_usage_event events rollups v =
    let rowcount = count_open v.event_id events in
    let updated = update_open v events in
    (
      rowcount == 1,
      updated,
      if rowcount == 1 && is_settled v.status
          then rollup_settled_event v updated rollups
          else rollups,
    )

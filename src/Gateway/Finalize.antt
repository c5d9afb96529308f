-- ===== src/Gateway/Finalize.antt =====
-- `_finalize_event`, the end of every request: the event's settlement, the ledger's correction and
-- the release of the in-flight slot.
pub mod Once
pub mod Ends
use Prim.Native.String.{String}
use ufuk_ai_agent.Prelude.{ℕ, Bool, true, false, Option, none, some, List, if◌then◌else◌}
use ufuk_ai_agent.Prelude.Int.{ℤ, pos, ◌-ℤ◌}
use ufuk_ai_agent.Models.{UsageStatus, reserved, settled, failed, cancelled}
use ufuk_ai_agent.Tiers.{TierView}
use ufuk_ai_agent.Credits.{token_cost}
use ufuk_ai_agent.Ledger.{adjust, release}
use ufuk_ai_agent.Limits.Guard.{release_slot}
use ufuk_ai_agent.Subscriptions.{ActiveSubscription, period_key}
use ufuk_ai_agent.Usage.{Amount, Settlement, is_settled, settle_usage_event}
use ufuk_ai_agent.Redis.{Redis, Key}
use ufuk_ai_agent.Gateway.Response.{Reading}
use ufuk_ai_agent.Gateway.World.{World, Request}
use ufuk_ai_agent.Gateway.Reserve.{Ticket}

abbrev pub micro_credits : ℕ → Amount
micro_credits n = record { num = n; den = 1 }

-- The cost that `_finalize_event` computes first.
unfoldable pub actual_cost : TierView → Reading → ℕ
actual_cost tier r =
    token_cost tier r.prompt_tokens r.completion_tokens r.cached_prompt_tokens r.cache_write_tokens
      r.reasoning_tokens

unfoldable pub settlement : Request → TierView → ℕ → Reading → UsageStatus → ℕ → Settlement
unfolding actual_cost
settlement q tier event_id r status latency_ms = record {
  event_id = event_id;
  prompt_tokens = some r.prompt_tokens;
  completion_tokens = some r.completion_tokens;
  credits = some (micro_credits (if is_settled status then actual_cost tier r else 0));
  estimated = r.estimated;
  latency_ms = some latency_ms;
  status = status;
  upstream_cost_usd = r.upstream_cost_usd;
  cached_prompt_tokens = r.cached_prompt_tokens;
  cache_write_tokens = r.cache_write_tokens;
  reasoning_tokens = r.reasoning_tokens;
  selected_model_id = r.selected_model_id;
  parent_request_id = if is_settled status then q.parent_request_id else none;
  session_id = if is_settled status then q.session_id else none;
  finish_reason = r.finish_reason;
}

-- What `_fail_event` passes on: the estimate, and no completion.
abbrev pub failed_reading : ℕ → Reading
failed_reading est_prompt = record {
  prompt_tokens = pos est_prompt;
  completion_tokens = pos 0;
  estimated = true;
  cached_prompt_tokens = pos 0;
  cache_write_tokens = pos 0;
  reasoning_tokens = pos 0;
  upstream_cost_usd = none;
  selected_model_id = none;
  finish_reason = none;
}

module _ (R : Redis) where
  -- The ledger's correction, made only by the settlement that won.
  unfoldable pub correct_ledger : R.Store → Key → Bool → UsageStatus → ℕ → ℕ → R.Store
  correct_ledger s key false status actual amount = s
  correct_ledger s key true status actual amount =
      if is_settled status
      then adjust R s key (pos actual -ℤ pos amount)
      else release R s key amount

  -- `held` is `request.state.guard_slot_held`, before and after.
  unfoldable pub finalize_event :
      Request
      → ActiveSubscription
      → TierView
      → Ticket
      → Reading
      → UsageStatus
      → ℕ
      → Bool
      → World R
      → Bool × World R
  unfolding settlement correct_ledger
  finalize_event q a tier t r status latency_ms held w =
      let (won, events, rollups) =
        settle_usage_event w.events w.rollups (settlement q tier t.event_id r status latency_ms) in
      let s =
        correct_ledger w.store (Key.credits q.user (period_key a)) won status (actual_cost tier r)
          t.amount in
      (false, record w { store = release_slot R s q.user held; events = events; rollups = rollups })

  -- `_fail_event`
  unfoldable pub fail_event :
      Request → ActiveSubscription → TierView → Ticket → ℕ → Bool → World R → Bool × World R
  unfolding finalize_event
  fail_event q a tier t latency_ms held w =
      finalize_event q a tier t (failed_reading t.est_prompt) failed latency_ms held w

-- ===== src/Gateway/Reserve.antt =====
-- `_reserve`: the credits of a request are put aside in the ledger, the window and the database.
pub mod Traces
use Prim.Native.String.{String}
use ufuk_ai_agent.Prelude.{
  ℕ, ◌+◌, ◌-◌, ◌*◌, ◌/◌, Bool, true, false, Option, none, some, List, [], ◌∷◌, ◌++◌, ltb, min,
  if◌then◌else◌,
}
use ufuk_ai_agent.Prelude.Int.{ℤ, pos}
use ufuk_ai_agent.Errors.{ApiError, Outcome, ok, raise, crash, api_error, with_hint}
use ufuk_ai_agent.Models.{UsageEvent, Plan, microseconds_per_second, reserved}
use ufuk_ai_agent.Tiers.{TierView}
use ufuk_ai_agent.Credits.{reserve_amount}
use ufuk_ai_agent.Estimate.{estimate_messages_tokens}
use ufuk_ai_agent.Ledger
use ufuk_ai_agent.Ledger.{ensure_ledger_synced, release, consume}
use ufuk_ai_agent.Subscriptions.{ActiveSubscription, period_key, quota_hint}
use ufuk_ai_agent.Redis.{Redis, Key}
use ufuk_ai_agent.Gateway.World.{World, Request, Draw}

abbrev pub ledger_ttl_grace_seconds : ℕ
ledger_ttl_grace_seconds = 5 * 24 * 3600

-- What `_reserve` returns.
pub record Ticket : Type 0 where
  pub event_id : ℕ
  pub est_prompt : ℕ
  pub amount : ℕ
  pub max_tokens : ℕ

unfoldable pub ticket : Option (String → ℕ) → Request → TierView → ℕ → Draw → Ticket
ticket encoder q tier cap d =
    let max_tokens : ℕ = elim q.requested_max_tokens [
      | none ↦ cap
      | some requested ↦ min requested cap
    ] in
    let est_prompt = estimate_messages_tokens encoder q.messages in
    record {
      event_id = d.event_id;
      est_prompt = est_prompt;
      amount = reserve_amount tier est_prompt max_tokens;
      max_tokens = max_tokens;
    }

abbrev pub exceeds : ℕ → Option ℕ → Bool
exceeds amount none = false
exceeds amount (some limit) = ltb limit amount

-- The row that `_reserve` inserts.
unfoldable pub reserved_event : Request → TierView → Ticket → Draw → UsageEvent
reserved_event q tier t d = record {
  id = d.event_id;
  request_id = d.request_id;
  user_id = some q.user;
  tier_alias = tier.alias;
  upstream_model_id = tier.upstream_model_id;
  prompt_tokens = none;
  completion_tokens = none;
  credits_charged = t.amount;
  estimated = true;
  status = reserved;
  latency_ms = none;
  upstream_cost_usd = none;
  cached_prompt_tokens = pos 0;
  cache_write_tokens = pos 0;
  reasoning_tokens = pos 0;
  selected_model_id = none;
  parent_request_id = q.parent_request_id;
  session_id = q.session_id;
  finish_reason = none;
  created_at = d.event_now;
}

-- `int((period_end - now).total_seconds())` truncates towards zero on either side of the end.
unfoldable pub ledger_ttl : ActiveSubscription → Draw → ℕ
ledger_ttl a d =
    (a.period_end - d.reserve_now) / microseconds_per_second
    + ledger_ttl_grace_seconds
    - (d.reserve_now - a.period_end) / microseconds_per_second

module _ (R : Redis) where
  -- The window's budget, where the plan has one; a refusal gives the period's credits back.
  unfoldable pub reserve_window :
      R.Store → ActiveSubscription → ℕ → ℕ → Draw → Outcome (Unit {0}) × R.Store
  reserve_window s a user amount d = elim a.plan.max_credits_per_window [
    | none ↦ (ok tt, s)
    | some window_cap ↦
        let (r, s') =
          consume R s user amount window_cap a.plan.budget_window_seconds d.window_now in
        elim r [
          | ok _ ↦ (ok tt, s')
          | raise e ↦ (
            raise (with_hint (quota_hint a.plan a.period_end) e),
            release R s' (Key.credits user (period_key a)) amount,
          )
          | crash ↦ (crash, s')
        ]
  ]

  -- Both ledgers.
  unfoldable pub reserve_credits :
      R.Store → List UsageEvent → ActiveSubscription → ℕ → ℕ → Draw → Outcome (Unit {0}) × R.Store
  unfolding reserve_window
  reserve_credits s events a user amount d =
      let synced =
        (ensure_ledger_synced R s events user (period_key a) a.period_start a.period_end
          (ledger_ttl a d)).1 in
      let (r, s') =
        Ledger.reserve R synced (Key.credits user (period_key a)) amount
          a.plan.monthly_credit_limit in
      elim r [
        | ok _ ↦ reserve_window s' a user amount d
        | raise e ↦ (raise (with_hint (quota_hint a.plan a.period_end) e), s')
        | crash ↦ (crash, s')
      ]

  unfoldable pub reserve :
      Option (String → ℕ)
      → Request
      → ActiveSubscription
      → TierView
      → ℕ
      → Draw
      → World R
      → Outcome Ticket × World R
  unfolding reserve_credits
  reserve encoder q a tier cap d w =
      let t = ticket encoder q tier cap d in
      if exceeds t.amount a.plan.max_credits_per_request
      then (
        raise
            (with_hint (quota_hint a.plan a.period_end) (api_error 402 "request_budget_exceeded")),
        w,
      )
      else let (r, s) = reserve_credits w.store w.events a q.user t.amount d in
        elim r [
          | ok _ ↦ if d.insert_fails then (crash, record w { store = s }) else (
            ok t,
            record w { store = s; events = w.events ++ reserved_event q tier t d ∷ [] },
          )
          | raise e ↦ (raise e, record w { store = s })
          | crash ↦ (crash, record w { store = s })
        ]

-- ===== src/Ledger.antt =====
-- The two Redis ledgers of evren-backend/app/services/credits.py: `CreditLedger` for the billing
-- period, `BudgetLedger` for the rolling window, and `ensure_ledger_synced`.
pub mod Laws
pub mod Race
pub mod ColdStart
use ufuk_ai_agent.Prelude.{
  ℕ, zero, suc, ◌+◌, ◌*◌, ◌/◌, Bool, true, false, ◌&&◌, Option, none, some, List, leb, ltb, ◌==◌,
  select, sum_by, if◌then◌else◌,
}
use ufuk_ai_agent.Prelude.Int.{ℤ, pos, negsuc, ◌-ℤ◌, ltb_ℤ}
use ufuk_ai_agent.Errors.{Outcome, ok, raise, api_error}
use ufuk_ai_agent.Models.{
  UsageEvent, UsageStatus, reserved, settled, failed, cancelled, microseconds_per_second,
}
use ufuk_ai_agent.Credits.{quantize_credits}
use ufuk_ai_agent.Redis.{Redis, Key}

-- `UsageEvent.status.in_([RESERVED, SETTLED])`
abbrev pub is_counted : UsageStatus → Bool
is_counted reserved = true
is_counted settled = true
is_counted failed = false
is_counted cancelled = false

abbrev pub is_user : ℕ → Option ℕ → Bool
is_user user none = false
is_user user (some id) = id == user

-- The `where` clause of the query in `ensure_ledger_synced`.
unfoldable pub in_period : ℕ → ℕ → ℕ → UsageEvent → Bool
in_period user period_start period_end e =
    is_user user e.user_id
    && (leb period_start e.created_at && (ltb e.created_at period_end && is_counted e.status))

-- `coalesce(sum(credits_charged), 0)` over the period's rows.
unfoldable pub period_total : List UsageEvent → ℕ → ℕ → ℕ → ℕ
unfolding in_period
period_total rows user period_start period_end =
    sum_by (λ e. e.credits_charged) (select (in_period user period_start period_end) rows)

-- `BudgetLedger.window_start`
unfoldable pub window_start : ℕ → ℕ → ℕ
window_start window_seconds now = now / (microseconds_per_second * window_seconds) * window_seconds

module _ (R : Redis) where
  -- `CreditLedger.reserve`: INCRBYFLOAT, and the roll back where the limit is passed.
  unfoldable pub reserve : R.Store → Key → ℕ → ℕ → Outcome (Unit {0}) × R.Store
  reserve s key amount limit =
      let (value, s') = R.incrby s key (pos amount) in
      if ltb_ℤ (pos limit) value
      then (raise (api_error 402 "quota_exceeded"), (R.incrby s' key (pos 0 -ℤ pos amount)).1)
      else (ok tt, s')

  -- `CreditLedger.adjust`
  unfoldable pub adjust : R.Store → Key → ℤ → R.Store
  adjust s key (pos zero) = s
  adjust s key (pos (suc n)) = (R.incrby s key (pos (suc n))).1
  adjust s key (negsuc n) = (R.incrby s key (negsuc n)).1

  -- `CreditLedger.release`
  unfoldable pub release : R.Store → Key → ℕ → R.Store
  unfolding adjust
  release s key amount = adjust s key (pos 0 -ℤ pos amount)

  -- `ensure_ledger_synced`, with the rows that its query reads.
  unfoldable pub ensure_ledger_synced : R.Store → List UsageEvent → ℕ → ℕ → ℕ → ℕ → ℕ → ℤ × R.Store
  unfolding period_total quantize_credits
  ensure_ledger_synced s rows user period_key period_start period_end ttl_seconds =
      elim (R.get s (Key.credits user period_key)) [
        | some existing ↦ (existing, s)
        | none ↦
            let value = quantize_credits (period_total rows user period_start period_end) 1 in
            (pos value, R.set s (Key.credits user period_key) (pos value) ttl_seconds)
      ]

  -- `BudgetLedger.consume`
  unfoldable pub consume : R.Store → ℕ → ℕ → ℕ → ℕ → ℕ → Outcome (Unit {0}) × R.Store
  consume s user amount limit window_seconds now =
      let key = Key.budget user (window_start window_seconds now) in
      let (value, s₁) = R.incrby s key (pos amount) in
      let s₂ = R.expire s₁ key (window_seconds + 5) in
      if ltb_ℤ (pos limit) value
      then (
        raise (api_error 402 "window_budget_exceeded"),
        (R.incrby s₂ key (pos 0 -ℤ pos amount)).1,
      )
      else (ok tt, s₂)

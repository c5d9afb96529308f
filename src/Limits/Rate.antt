-- ===== src/Limits/Rate.antt =====
-- evren-backend/app/services/rate_limiter.py: fixed-window counters in Redis.
pub mod Window
use ufuk_ai_agent.Prelude.{ℕ, Bool, ◌||◌, Option, none, some, not, if◌then◌else◌}
use ufuk_ai_agent.Prelude.Int.{ℤ, pos, ltb_ℤ, max_ℤ, eq_ℤ}
use ufuk_ai_agent.Redis.{Redis, Key}

module _ (R : Redis) where
  -- `check_rate_limit`: the seconds to wait, or none.
  unfoldable pub check_rate_limit : R.Store → Key → ℕ → ℕ → Option ℤ × R.Store
  check_rate_limit s key limit window_seconds =
      let (count, s₁) = R.incrby s key (pos 1) in
      let ttl = R.ttl s₁ key in
      let s₂ = if ltb_ℤ ttl (pos 0) then R.expire s₁ key window_seconds else s₁ in
      (if ltb_ℤ (pos limit) count then some (max_ℤ ttl (pos 1)) else none, s₂)

  unfoldable pub register_failure : R.Store → Key → ℕ → R.Store
  register_failure s key window_seconds =
      let (count, s₁) = R.incrby s key (pos 1) in
      if eq_ℤ count (pos 1) || ltb_ℤ (R.ttl s₁ key) (pos 0)
      then R.expire s₁ key window_seconds
      else s₁

  unfoldable pub retry_after_if_blocked : R.Store → Key → ℕ → Option ℤ
  retry_after_if_blocked s key limit = elim (R.get s key) [
    | none ↦ none
    | some count ↦ if ltb_ℤ count (pos limit) then none else some (max_ℤ (R.ttl s key) (pos 1))
  ]

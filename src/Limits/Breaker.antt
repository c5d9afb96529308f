-- ===== src/Limits/Breaker.antt =====
-- evren-backend/app/services/circuit_breaker.py: `CircuitBreaker`, with the clock's reading as an
-- argument, in whole ticks.
pub mod Trips
use ufuk_ai_agent.Prelude.{ℕ, ◌+◌, Bool, true, false, Option, none, some, leb, ltb, if◌then◌else◌}

pub record Config : Type 0 where
  pub failure_threshold : ℕ
  pub cooldown_seconds : ℕ

pub record Breaker : Type 0 where
  pub consecutive_failures : ℕ
  pub opened_at : Option ℕ

-- `__init__`
abbrev pub closed : Breaker
closed = record { consecutive_failures = 0; opened_at = none }

unfoldable pub is_open : Config → Breaker → ℕ → Bool
is_open c b clock = elim b.opened_at [
  | none ↦ false
  | some opened_at ↦ ltb clock (opened_at + c.cooldown_seconds)
]

-- `allow_request`; the lock makes it one step.
unfoldable pub allow_request : Config → Breaker → ℕ → Bool × Breaker
allow_request c b clock = elim b.opened_at [
  | none ↦ (true, b)
  | some opened_at ↦ (leb (opened_at + c.cooldown_seconds) clock, b)
]

unfoldable pub record_success : Breaker → Breaker
record_success b = record b { consecutive_failures = 0; opened_at = none }

unfoldable pub record_failure : Config → Breaker → ℕ → Breaker
record_failure c b clock =
    let failures = b.consecutive_failures + 1 in
    if leb c.failure_threshold failures
    then record { consecutive_failures = failures; opened_at = some clock }
    else record b { consecutive_failures = failures }

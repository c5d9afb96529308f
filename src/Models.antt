-- ===== src/Models.antt =====
-- The rows of evren-backend/app/models: usage events, plans, subscriptions. A table is a list of
-- rows, oldest first; UUIDs are numbers, times are microseconds since the epoch.
use Prim.Native.String.{String}
use ufuk_ai_agent.Prelude.{ℕ, Bool, Option, List}
use ufuk_ai_agent.Prelude.Int.{ℤ}

abbrev pub microseconds_per_second : ℕ
microseconds_per_second = 1_000_000

abbrev pub microseconds_per_day : ℕ
microseconds_per_day = 86_400_000_000

-- `UsageStatus` of models/enums.py
pub data UsageStatus : Type 0 where
  reserved settled failed cancelled : UsageStatus

-- `SubscriptionStatus` of models/enums.py
pub data SubscriptionStatus : Type 0 where
  active expired cancelled : SubscriptionStatus

pub record UsageEvent : Type 0 where
  pub id : ℕ
  pub request_id : ℕ
  pub user_id : Option ℕ
  pub tier_alias : String
  pub upstream_model_id : String
  pub prompt_tokens : Option ℤ
  pub completion_tokens : Option ℤ
  pub credits_charged : ℕ
  pub estimated : Bool
  pub status : UsageStatus
  pub latency_ms : Option ℕ
  pub upstream_cost_usd : Option ℤ
  pub cached_prompt_tokens : ℤ
  pub cache_write_tokens : ℤ
  pub reasoning_tokens : ℤ
  pub selected_model_id : Option String
  pub parent_request_id : Option ℕ
  pub session_id : Option String
  pub finish_reason : Option String
  pub created_at : ℕ

-- Credit columns are in micro-credits and `price_usd` in cents.
pub record Plan : Type 0 where
  pub id : ℕ
  pub name : String
  pub monthly_credit_limit : ℕ
  pub max_output_tokens_per_request : ℕ
  pub requests_per_minute : ℕ
  pub max_credits_per_request : Option ℕ
  pub max_credits_per_window : Option ℕ
  pub budget_window_seconds : ℕ
  pub max_concurrent_requests : Option ℕ
  pub monthly_image_quota : Option ℕ
  pub allowed_tier_aliases : List String
  pub is_default : Bool
  pub stripe_price_id : Option String
  pub provider_price_id : Option String
  pub price_usd : Option ℕ

pub record Subscription : Type 0 where
  pub id : ℕ
  pub user_id : ℕ
  pub plan_id : ℕ
  pub period_start : ℕ
  pub period_end : ℕ
  pub status : SubscriptionStatus
  pub billing_event_id : Option String
  pub created_at : ℕ

-- ===== src/Tests/Samples.antt =====
-- A tier, two plans, a subscription and an event.
use ufuk_ai_agent.Prelude.{ℕ, ◌+◌, true, false, none, some, List, [], ◌∷◌}
use ufuk_ai_agent.Prelude.Int.{pos}
use ufuk_ai_agent.Models.{UsageEvent, Plan, Subscription, reserved, active}
use ufuk_ai_agent.Tiers.{TierView}
use ufuk_ai_agent.Subscriptions.{ActiveSubscription, view, period_length}
use ufuk_ai_agent.Usage.{Settlement}
use ufuk_ai_agent.Models.{settled}

abbrev pub tier : TierView
tier = record {
  alias = "fast";
  display_name = "Fast";
  upstream_model_id = "vendor/model";
  upstream_provider_name = "openrouter";
  input_credits_per_1k_tokens = 2_000_000;
  output_credits_per_1k_tokens = 6_000_000;
  max_output_tokens = 4096;
  context_window = 128_000;
  cache_read_multiplier = 10_000;
  cache_write_multiplier = 10_000;
  reasoning_multiplier = 10_000;
  input_modalities = "text" ∷ [];
  output_modalities = "text" ∷ [];
  supports_tools = true;
  pricing_unit = "per_1k_tokens";
  max_images_per_request = none;
  is_internal = false;
  fallback_model_ids = [];
  routing_plugin = none;
  tooltip_title = none;
  tooltip_body = none;
  tooltip_cost_level = none;
  tooltip_speed_level = none;
  tooltip_quality_level = none;
  tooltip_best_for = none;
}

abbrev pub free_plan : Plan
free_plan = record {
  id = 1;
  name = "free";
  monthly_credit_limit = 100_000_000;
  max_output_tokens_per_request = 1024;
  requests_per_minute = 10;
  max_credits_per_request = some 50_000_000;
  max_credits_per_window = some 60_000_000;
  budget_window_seconds = 3600;
  max_concurrent_requests = some 2;
  monthly_image_quota = none;
  allowed_tier_aliases = "fast" ∷ [];
  is_default = true;
  stripe_price_id = none;
  provider_price_id = none;
  price_usd = none;
}

abbrev pub paid_plan : Plan
paid_plan = record free_plan { id = 2; name = "plus"; is_default = false; price_usd = some 2000 }

abbrev pub plans : List Plan
plans = free_plan ∷ paid_plan ∷ []

-- A row of user 7 for one period from time 1000.
abbrev pub row : ℕ → Subscription
row plan_id = record {
  id = 30;
  user_id = 7;
  plan_id = plan_id;
  period_start = 1000;
  period_end = 1000 + period_length;
  status = active;
  billing_event_id = none;
  created_at = 1000;
}

abbrev pub subscription : ActiveSubscription
subscription = view free_plan (row 1)

abbrev pub event : UsageEvent
event = record {
  id = 5;
  request_id = 50;
  user_id = some 7;
  tier_alias = "fast";
  upstream_model_id = "vendor/model";
  prompt_tokens = none;
  completion_tokens = none;
  credits_charged = 9_000_000;
  estimated = true;
  status = reserved;
  latency_ms = none;
  upstream_cost_usd = none;
  cached_prompt_tokens = pos 0;
  cache_write_tokens = pos 0;
  reasoning_tokens = pos 0;
  selected_model_id = none;
  parent_request_id = none;
  session_id = none;
  finish_reason = none;
  created_at = 2000;
}

abbrev pub charge : Settlement
charge = record {
  event_id = 5;
  prompt_tokens = some (pos 100);
  completion_tokens = some (pos 20);
  credits = some (record { num = 320_000; den = 1 });
  estimated = false;
  latency_ms = some 12;
  status = settled;
  upstream_cost_usd = none;
  cached_prompt_tokens = pos 0;
  cache_write_tokens = pos 0;
  reasoning_tokens = pos 0;
  selected_model_id = some "vendor/model";
  parent_request_id = none;
  session_id = none;
  finish_reason = some "stop";
}

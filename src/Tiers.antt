-- ===== src/Tiers.antt =====
-- The tier a request is billed by: `TierView` of evren-backend/app/services/tiers.py.
pub mod View
pub mod Row
pub mod Cache
use Prim.Native.String.{String}
use ufuk_ai_agent.Prelude.{ℕ, Bool, Option, List}

-- Rates are in micro-credits (`Numeric(12, 6)` columns) and multipliers in ten-thousandths
-- (`Numeric(6, 4)` columns).
pub record TierView : Type 0 where
  pub alias : String
  pub display_name : String
  pub upstream_model_id : String
  pub upstream_provider_name : String
  pub input_credits_per_1k_tokens : ℕ
  pub output_credits_per_1k_tokens : ℕ
  pub max_output_tokens : ℕ
  pub context_window : ℕ
  pub cache_read_multiplier : ℕ
  pub cache_write_multiplier : ℕ
  pub reasoning_multiplier : ℕ
  pub input_modalities : List String
  pub output_modalities : List String
  pub supports_tools : Bool
  pub pricing_unit : String
  pub max_images_per_request : Option ℕ
  pub is_internal : Bool
  pub fallback_model_ids : List String
  pub routing_plugin : Option String
  pub tooltip_title : Option String
  pub tooltip_body : Option String
  pub tooltip_cost_level : Option ℕ
  pub tooltip_speed_level : Option ℕ
  pub tooltip_quality_level : Option ℕ
  pub tooltip_best_for : Option String

-- ===== src/Tiers/Row.antt =====
-- The `model_tiers` table: `ModelTier` of evren-backend/app/models/tier.py, `tier_to_view` of
-- evren-backend/app/services/tiers.py, and `TierUpdate` of evren-backend/app/schemas/plans.py with what
-- `update_tier` of evren-backend/app/routers/admin.py does to a row.
use Prim.Native.String.{String}
use ufuk_ai_agent.Prelude.{ℕ, Bool, Option, List, [], ◌∷◌, or_default}
use ufuk_ai_agent.Tiers.{TierView}

-- Rates and multipliers in the units of `TierView`; `pricing_unit` is the text of the enum.
pub record ModelTier : Type 0 where
  pub id : ℕ
  pub alias : String
  pub display_name : String
  pub upstream_model_id : String
  pub upstream_provider_name : String
  pub input_credits_per_1k_tokens : ℕ
  pub output_credits_per_1k_tokens : ℕ
  pub cache_read_multiplier : ℕ
  pub cache_write_multiplier : ℕ
  pub reasoning_multiplier : ℕ
  pub max_output_tokens : ℕ
  pub context_window : ℕ
  pub input_modalities : List String
  pub output_modalities : List String
  pub supports_tools : Bool
  pub pricing_unit : String
  pub max_images_per_request : Option ℕ
  pub is_internal : Bool
  pub fallback_model_ids : List String
  pub routing_plugin : Option String
  pub tooltip_title : Option String
  pub tooltip_body : Option String
  pub tooltip_cost_level : Option ℕ
  pub tooltip_speed_level : Option ℕ
  pub tooltip_quality_level : Option ℕ
  pub tooltip_best_for : Option String
  pub price_note : Option String
  pub price_note_tr : Option String
  pub speed_hint : Option ℕ
  pub quality_hint : Option ℕ
  pub enabled : Bool

-- `values or ("text",)`
abbrev pub or_text : List String → List String
or_text [] = "text" ∷ []
or_text (m ∷ ms) = m ∷ ms

unfoldable pub tier_to_view : ModelTier → TierView
tier_to_view tier = record {
  alias = tier.alias;
  display_name = tier.display_name;
  upstream_model_id = tier.upstream_model_id;
  upstream_provider_name = tier.upstream_provider_name;
  input_credits_per_1k_tokens = tier.input_credits_per_1k_tokens;
  output_credits_per_1k_tokens = tier.output_credits_per_1k_tokens;
  cache_read_multiplier = tier.cache_read_multiplier;
  cache_write_multiplier = tier.cache_write_multiplier;
  reasoning_multiplier = tier.reasoning_multiplier;
  max_output_tokens = tier.max_output_tokens;
  context_window = tier.context_window;
  input_modalities = or_text tier.input_modalities;
  output_modalities = or_text tier.output_modalities;
  supports_tools = tier.supports_tools;
  pricing_unit = tier.pricing_unit;
  max_images_per_request = tier.max_images_per_request;
  is_internal = tier.is_internal;
  fallback_model_ids = tier.fallback_model_ids;
  routing_plugin = tier.routing_plugin;
  tooltip_title = tier.tooltip_title;
  tooltip_body = tier.tooltip_body;
  tooltip_cost_level = tier.tooltip_cost_level;
  tooltip_speed_level = tier.tooltip_speed_level;
  tooltip_quality_level = tier.tooltip_quality_level;
  tooltip_best_for = tier.tooltip_best_for;
}

-- The fields that a request sets; a nullable column may be set to none.
pub record TierUpdate : Type 0 where
  pub display_name : Option String
  pub upstream_model_id : Option String
  pub upstream_provider_name : Option String
  pub input_credits_per_1k_tokens : Option ℕ
  pub output_credits_per_1k_tokens : Option ℕ
  pub cache_read_multiplier : Option ℕ
  pub cache_write_multiplier : Option ℕ
  pub reasoning_multiplier : Option ℕ
  pub max_output_tokens : Option ℕ
  pub context_window : Option ℕ
  pub input_modalities : Option (List String)
  pub output_modalities : Option (List String)
  pub supports_tools : Option Bool
  pub pricing_unit : Option String
  pub max_images_per_request : Option (Option ℕ)
  pub is_internal : Option Bool
  pub fallback_model_ids : Option (List String)
  pub routing_plugin : Option (Option String)
  pub tooltip_title : Option (Option String)
  pub tooltip_body : Option (Option String)
  pub tooltip_cost_level : Option (Option ℕ)
  pub tooltip_speed_level : Option (Option ℕ)
  pub tooltip_quality_level : Option (Option ℕ)
  pub tooltip_best_for : Option (Option String)
  pub price_note : Option (Option String)
  pub price_note_tr : Option (Option String)
  pub speed_hint : Option (Option ℕ)
  pub quality_hint : Option (Option ℕ)
  pub enabled : Option Bool

-- `setattr` for each field of `model_dump(exclude_unset=True)`.
unfoldable pub apply_update : TierUpdate → ModelTier → ModelTier
apply_update values tier = record tier {
  display_name = or_default values.display_name tier.display_name;
  upstream_model_id = or_default values.upstream_model_id tier.upstream_model_id;
  upstream_provider_name = or_default values.upstream_provider_name tier.upstream_provider_name;
  input_credits_per_1k_tokens =
      or_default values.input_credits_per_1k_tokens tier.input_credits_per_1k_tokens;
  output_credits_per_1k_tokens =
      or_default values.output_credits_per_1k_tokens tier.output_credits_per_1k_tokens;
  cache_read_multiplier = or_default values.cache_read_multiplier tier.cache_read_multiplier;
  cache_write_multiplier = or_default values.cache_write_multiplier tier.cache_write_multiplier;
  reasoning_multiplier = or_default values.reasoning_multiplier tier.reasoning_multiplier;
  max_output_tokens = or_default values.max_output_tokens tier.max_output_tokens;
  context_window = or_default values.context_window tier.context_window;
  input_modalities = or_default values.input_modalities tier.input_modalities;
  output_modalities = or_default values.output_modalities tier.output_modalities;
  supports_tools = or_default values.supports_tools tier.supports_tools;
  pricing_unit = or_default values.pricing_unit tier.pricing_unit;
  max_images_per_request = or_default values.max_images_per_request tier.max_images_per_request;
  is_internal = or_default values.is_internal tier.is_internal;
  fallback_model_ids = or_default values.fallback_model_ids tier.fallback_model_ids;
  routing_plugin = or_default values.routing_plugin tier.routing_plugin;
  tooltip_title = or_default values.tooltip_title tier.tooltip_title;
  tooltip_body = or_default values.tooltip_body tier.tooltip_body;
  tooltip_cost_level = or_default values.tooltip_cost_level tier.tooltip_cost_level;
  tooltip_speed_level = or_default values.tooltip_speed_level tier.tooltip_speed_level;
  tooltip_quality_level = or_default values.tooltip_quality_level tier.tooltip_quality_level;
  tooltip_best_for = or_default values.tooltip_best_for tier.tooltip_best_for;
  price_note = or_default values.price_note tier.price_note;
  price_note_tr = or_default values.price_note_tr tier.price_note_tr;
  speed_hint = or_default values.speed_hint tier.speed_hint;
  quality_hint = or_default values.quality_hint tier.quality_hint;
  enabled = or_default values.enabled tier.enabled;
}

-- ===== src/Tiers/View.antt =====
-- `TierView.as_dict` and `TierView.from_dict` of evren-backend/app/services/tiers.py. Texts of numbers
-- and of lists are those of Python's `str`, `Decimal` and `json`.
pub mod RoundTrip
use Prim.Native.String.{String}
use text.Mathlib.Text.{◌==◌ as str_eq}
use ufuk_ai_agent.Prelude.{
  ℕ, zero, suc, ◌≡◌, Bool, true, false, Option, none, some, List, [], ◌∷◌, or_default,
  if◌then◌else◌,
}
use ufuk_ai_agent.Prelude.Options.{Dict, lookup, ◌>>=◌}
use ufuk_ai_agent.Upstream.{truthy_text}
use ufuk_ai_agent.Tiers.{TierView}

-- `str` and `int` of an integer, `str` and `Decimal` of a decimal with so many places, and `json.dumps`
-- and `json.loads` of a list of texts.
pub record Codec : Type 0 where
  pub show_int : ℕ → String
  pub read_int : String → Option ℕ
  pub show_decimal : ℕ → ℕ → String
  pub read_decimal : ℕ → String → Option ℕ
  pub dumps : List String → String
  pub loads : String → Option (List String)

-- What was written is read back, and no written text is empty.
pub record IsFaithful (c : Codec) : Type 0 where
  pub read-show_int : (n : ℕ) → c.read_int (c.show_int n) ≡ some n
  pub show_int_truthy : (n : ℕ) → truthy_text (some (c.show_int n)) ≡ some (c.show_int n)
  pub read-show_decimal : (places n : ℕ) → c.read_decimal places (c.show_decimal places n) ≡ some n
  pub loads-dumps : (xs : List String) → c.loads (c.dumps xs) ≡ some xs
  pub dumps_truthy : (xs : List String) → truthy_text (some (c.dumps xs)) ≡ some (c.dumps xs)

abbrev pub rate_places : ℕ
rate_places = 6

abbrev pub multiplier_places : ℕ
multiplier_places = 4

abbrev pub show_bool : Bool → String
show_bool true = "true"
show_bool false = "false"

-- `text or ""`
abbrev pub or_blank : Option String → String
or_blank none = ""
or_blank (some s) = s

abbrev pub some_int : Option ℕ → Option (Option ℕ)
some_int none = none
some_int (some n) = some (some n)

module _ (c : Codec) where
  -- `str(n) if n is not None else ""`
  abbrev pub show_optional : Option ℕ → String
  show_optional none = ""
  show_optional (some n) = c.show_int n

  -- `str(n or "")`
  abbrev pub show_level : Option ℕ → String
  show_level none = ""
  show_level (some zero) = ""
  show_level (some (suc n)) = c.show_int (suc n)

  unfoldable pub as_dict : TierView → Dict
  as_dict v =
      ("alias", v.alias)
      ∷ ("display_name", v.display_name)
      ∷ ("upstream_model_id", v.upstream_model_id)
      ∷ ("upstream_provider_name", v.upstream_provider_name)
      ∷ ("input_credits_per_1k_tokens", c.show_decimal rate_places v.input_credits_per_1k_tokens)
      ∷ ("output_credits_per_1k_tokens", c.show_decimal rate_places v.output_credits_per_1k_tokens)
      ∷ ("cache_read_multiplier", c.show_decimal multiplier_places v.cache_read_multiplier)
      ∷ ("cache_write_multiplier", c.show_decimal multiplier_places v.cache_write_multiplier)
      ∷ ("reasoning_multiplier", c.show_decimal multiplier_places v.reasoning_multiplier)
      ∷ ("max_output_tokens", c.show_int v.max_output_tokens)
      ∷ ("context_window", c.show_int v.context_window)
      ∷ ("input_modalities", c.dumps v.input_modalities)
      ∷ ("output_modalities", c.dumps v.output_modalities)
      ∷ ("supports_tools", show_bool v.supports_tools)
      ∷ ("pricing_unit", v.pricing_unit)
      ∷ ("max_images_per_request", show_optional v.max_images_per_request)
      ∷ ("is_internal", show_bool v.is_internal)
      ∷ ("fallback_model_ids", c.dumps v.fallback_model_ids)
      ∷ ("routing_plugin", or_blank v.routing_plugin)
      ∷ ("tooltip_title", or_blank v.tooltip_title)
      ∷ ("tooltip_body", or_blank v.tooltip_body)
      ∷ ("tooltip_cost_level", show_level v.tooltip_cost_level)
      ∷ ("tooltip_speed_level", show_level v.tooltip_speed_level)
      ∷ ("tooltip_quality_level", show_level v.tooltip_quality_level)
      ∷ ("tooltip_best_for", or_blank v.tooltip_best_for)
      ∷ []

  abbrev pub read_or_none : Option String → Option (Option ℕ)
  read_or_none none = some none
  read_or_none (some s) = some_int (c.read_int s)

  -- `int(data[key]) if data.get(key) else None`
  abbrev pub optional_int : Option String → Option (Option ℕ)
  optional_int o = read_or_none (truthy_text o)

  -- `Decimal(data.get(key, "1.0"))`
  abbrev pub multiplier : Option String → Option ℕ
  multiplier o = c.read_decimal multiplier_places (or_default o "1.0")

  -- `tuple(json.loads(data[key]) if key in data else ("text",))`
  abbrev pub modalities : Option String → Option (List String)
  modalities none = some ("text" ∷ [])
  modalities (some s) = c.loads s

  abbrev pub loads_or : Option String → Option (List String)
  loads_or none = some []
  loads_or (some s) = c.loads s

  -- `tuple(json.loads(data[key]) if data.get(key) else ())`
  abbrev pub optional_list : Option String → Option (List String)
  optional_list o = loads_or (truthy_text o)

  -- None is a `KeyError` or a `ValueError`.
  unfoldable pub from_dict : Dict → Option TierView
  from_dict d = do
    alias ← lookup "alias" d
    display_name ← lookup "display_name" d
    upstream_model_id ← lookup "upstream_model_id" d
    upstream_provider_name ← lookup "upstream_provider_name" d
    input ← lookup "input_credits_per_1k_tokens" d
    input_credits ← c.read_decimal rate_places input
    output ← lookup "output_credits_per_1k_tokens" d
    output_credits ← c.read_decimal rate_places output
    cache_read ← multiplier (lookup "cache_read_multiplier" d)
    cache_write ← multiplier (lookup "cache_write_multiplier" d)
    reasoning ← multiplier (lookup "reasoning_multiplier" d)
    output_text ← lookup "max_output_tokens" d
    max_output ← c.read_int output_text
    window_text ← lookup "context_window" d
    window ← c.read_int window_text
    inputs ← modalities (lookup "input_modalities" d)
    outputs ← modalities (lookup "output_modalities" d)
    max_images ← optional_int (lookup "max_images_per_request" d)
    fallbacks ← optional_list (lookup "fallback_model_ids" d)
    cost ← optional_int (lookup "tooltip_cost_level" d)
    speed ← optional_int (lookup "tooltip_speed_level" d)
    quality ← optional_int (lookup "tooltip_quality_level" d)
    some (record {
      alias = alias;
      display_name = display_name;
      upstream_model_id = upstream_model_id;
      upstream_provider_name = upstream_provider_name;
      input_credits_per_1k_tokens = input_credits;
      output_credits_per_1k_tokens = output_credits;
      max_output_tokens = max_output;
      context_window = window;
      cache_read_multiplier = cache_read;
      cache_write_multiplier = cache_write;
      reasoning_multiplier = reasoning;
      input_modalities = inputs;
      output_modalities = outputs;
      supports_tools = str_eq (or_default (lookup "supports_tools" d) "true") "true";
      pricing_unit = or_default (lookup "pricing_unit" d) "token";
      max_images_per_request = max_images;
      is_internal = str_eq (or_default (lookup "is_internal" d) "false") "true";
      fallback_model_ids = fallbacks;
      routing_plugin = truthy_text (lookup "routing_plugin" d);
      tooltip_title = truthy_text (lookup "tooltip_title" d);
      tooltip_body = truthy_text (lookup "tooltip_body" d);
      tooltip_cost_level = cost;
      tooltip_speed_level = speed;
      tooltip_quality_level = quality;
      tooltip_best_for = truthy_text (lookup "tooltip_best_for" d);
    })

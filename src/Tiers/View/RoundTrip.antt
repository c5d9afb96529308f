-- ===== src/Tiers/View/RoundTrip.antt =====
-- A tier read back from its cache entry.
use Prim.Native.String.{String}
use text.Mathlib.Text.{◌==◌ as str_eq}
use ufuk_ai_agent.Prelude.{
  ℕ, zero, suc, ◌≡◌, ◌∙◌, ap, refl, Bool, true, false, List, Option, none, some,
}
use ufuk_ai_agent.Upstream.{truthy_text}
use ufuk_ai_agent.Tiers.{TierView}
use ufuk_ai_agent.Tiers.View.{
  read_or_none, loads_or, some_int, Codec, IsFaithful, show_optional, show_level, show_bool,
  or_blank, optional_int, optional_list, as_dict, from_dict,
}

-- A level of 0 is no level.
abbrev pub truthy_level : Option ℕ → Option ℕ
truthy_level none = none
truthy_level (some zero) = none
truthy_level (some (suc n)) = some (suc n)

-- The view as the cache gives it back: an empty optional text, and a level of 0, are none.
abbrev pub cached_view : TierView → TierView
cached_view v = record v {
  routing_plugin = truthy_text v.routing_plugin;
  tooltip_title = truthy_text v.tooltip_title;
  tooltip_body = truthy_text v.tooltip_body;
  tooltip_cost_level = truthy_level v.tooltip_cost_level;
  tooltip_speed_level = truthy_level v.tooltip_speed_level;
  tooltip_quality_level = truthy_level v.tooltip_quality_level;
  tooltip_best_for = truthy_text v.tooltip_best_for;
}

truthy_text-or_blank : (o : Option String) → truthy_text (some (or_blank o)) ≡ truthy_text o
truthy_text-or_blank none = refl
truthy_text-or_blank (some s) = refl

truthy_text_twice : (o : Option String) → truthy_text (truthy_text o) ≡ truthy_text o
truthy_text_twice none = refl
truthy_text_twice (some String.[]) = refl
truthy_text_twice (some (String.◌∷◌ c s)) = refl

truthy_level_twice : (o : Option ℕ) → truthy_level (truthy_level o) ≡ truthy_level o
truthy_level_twice none = refl
truthy_level_twice (some zero) = refl
truthy_level_twice (some (suc n)) = refl

pub cached_view-cached_view : (v : TierView) → cached_view (cached_view v) ≡ cached_view v
cached_view-cached_view v = simp (truthy_text_twice, truthy_level_twice)

module _ (c : Codec) (F : IsFaithful c) where
  optional_int-shown : (n : ℕ) → optional_int c (some (c.show_int n)) ≡ some (some n)
  optional_int-shown n = ap (read_or_none c) (F.show_int_truthy n) ∙ ap some_int (F.read-show_int n)

  optional_int-show_optional : (o : Option ℕ) → optional_int c (some (show_optional c o)) ≡ some o
  optional_int-show_optional none = refl
  optional_int-show_optional (some n) = optional_int-shown n

  optional_int-show_level :
      (o : Option ℕ) → optional_int c (some (show_level c o)) ≡ some (truthy_level o)
  optional_int-show_level none = refl
  optional_int-show_level (some zero) = refl
  optional_int-show_level (some (suc n)) = optional_int-shown (suc n)

  optional_list-dumps : (xs : List String) → optional_list c (some (c.dumps xs)) ≡ some xs
  optional_list-dumps xs = ap (loads_or c) (F.dumps_truthy xs) ∙ F.loads-dumps xs

  str_eq-show_bool : (b : Bool) → str_eq (show_bool b) "true" ≡ b
  str_eq-show_bool true = refl
  str_eq-show_bool false = refl

  -- A tier that is written to the cache is read back as it was, but for an optional text that is
  -- empty and a level that is 0, which are read as none.
  pub from_dict-as_dict : (v : TierView) → from_dict c (as_dict c v) ≡ some (cached_view v)
  unfolding from_dict as_dict
  from_dict-as_dict v = simp (
    F.read-show_decimal, F.read-show_int, F.loads-dumps, optional_int-show_optional,
    optional_int-show_level, optional_list-dumps, str_eq-show_bool, truthy_text-or_blank,
  )

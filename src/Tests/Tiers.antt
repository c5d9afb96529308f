-- ===== src/Tests/Tiers.antt =====
-- Tests of the tiers' cache, with a codec that writes numbers in unary and marks each character of a
-- list's texts.
use Prim.Native.Char.{Char, code}
use Prim.Native.String.{String}
use ufuk_ai_agent.Prelude.{
  ℕ, zero, suc, ◌≡◌, ap, refl, ◌==◌, Bool, true, false, Option, none, some, List, [], ◌∷◌,
  if◌then◌else◌,
}
use ufuk_ai_agent.Prelude.Options.{Dict}
use ufuk_ai_agent.Errors.{ok}
use ufuk_ai_agent.Subscriptions.Tables.{first}
use ufuk_ai_agent.Auth.{change_first}
use ufuk_ai_agent.Upstream.{truthy_text}
use ufuk_ai_agent.Tiers.{TierView}
use ufuk_ai_agent.Tiers.Row.{ModelTier, TierUpdate, tier_to_view, apply_update}
use ufuk_ai_agent.Tiers.View.{Codec, IsFaithful, from_dict, as_dict}
use ufuk_ai_agent.Tiers.View.RoundTrip.{cached_view, from_dict-as_dict}
use ufuk_ai_agent.Tiers.Cache.{Tiers, Command, load_tier, get_tier, update_tier, run_commands}
use ufuk_ai_agent.Tiers.Cache.Coherence.{IsCoherent, Answers, run_commands-Answers}
use ufuk_ai_agent.Tiers.Cache.Stale.{read_around_update, get_tier_race}
use ufuk_ai_agent.Tests.Samples.{tier}

abbrev pub show : ℕ → String
show zero = "0"
show (suc n) = String.◌∷◌ "1" (show n)

abbrev pub after : Option ℕ → Option ℕ
after none = none
after (some n) = some (suc n)

abbrev pub read_text : String → Option ℕ
read_text String.[] = none
read_text (String.◌∷◌ c s) =
    let rest = after (read_text s) in if code c == b'0' then some 0 else rest

read_text-show : (n : ℕ) → read_text (show n) ≡ some n
read_text-show zero = refl
read_text-show (suc n) = ap after (read_text-show n)

abbrev pub mark : String → String → String
mark String.[] rest = rest
mark (String.◌∷◌ c s) rest = String.◌∷◌ "'" (String.◌∷◌ c (mark s rest))

abbrev pub dump_texts : List String → String
dump_texts [] = "]"
dump_texts (x ∷ xs) = String.◌∷◌ "," (mark x (dump_texts xs))

abbrev pub Pending : Type 0
Pending = Option (String × List String)

abbrev pub close : Pending → Pending
close none = none
close (some (x, xs)) = some ("", x ∷ xs)

abbrev pub extend : Char → Pending → Pending
extend c none = none
extend c (some (x, xs)) = some (String.◌∷◌ c x, xs)

-- The flag says that the next character is marked.
abbrev pub load_pending : Bool → String → Pending
load_pending marked String.[] = none
load_pending true (String.◌∷◌ c s) = extend c (load_pending false s)
load_pending false (String.◌∷◌ q s) =
    let element = close (load_pending false s) in
    let char = load_pending true s in
    if code q == b']' then some ("", []) else if code q == b',' then element else char

abbrev pub finish : Pending → Option (List String)
finish none = none
finish (some (x, xs)) = some xs

load_pending-mark :
    (x rest : String) (xs : List String)
    → load_pending false rest ≡ some ("", xs)
    → load_pending false (mark x rest) ≡ some (x, xs)
load_pending-mark String.[] rest xs e = e
load_pending-mark (String.◌∷◌ c s) rest xs e = ap (extend c) (load_pending-mark s rest xs e)

load_pending-dump : (xs : List String) → load_pending false (dump_texts xs) ≡ some ("", xs)
load_pending-dump [] = refl
load_pending-dump (x ∷ xs) =
    ap close (load_pending-mark x (dump_texts xs) xs (load_pending-dump xs))

abbrev pub codec : Codec
codec = record {
  show_int = show;
  read_int = read_text;
  show_decimal = λ places n. show n;
  read_decimal = λ places s. read_text s;
  dumps = dump_texts;
  loads = λ s. finish (load_pending false s);
}

show_truthy : (n : ℕ) → truthy_text (some (show n)) ≡ some (show n)
show_truthy zero = refl
show_truthy (suc n) = refl

dump_truthy : (xs : List String) → truthy_text (some (dump_texts xs)) ≡ some (dump_texts xs)
dump_truthy [] = refl
dump_truthy (x ∷ xs) = refl

pub codec-IsFaithful : IsFaithful codec
codec-IsFaithful = record {
  read-show_int = read_text-show;
  show_int_truthy = show_truthy;
  read-show_decimal = λ places n. read_text-show n;
  loads-dumps = λ xs. ap finish (load_pending-dump xs);
  dumps_truthy = dump_truthy;
}

-- A tier with a chain of fallbacks, an empty note and small numbers.
abbrev small : TierView
small = record tier {
  input_credits_per_1k_tokens = 3;
  output_credits_per_1k_tokens = 6;
  max_output_tokens = 40;
  context_window = 90;
  cache_read_multiplier = 1;
  cache_write_multiplier = 2;
  reasoning_multiplier = 1;
  fallback_model_ids = "a" ∷ "b" ∷ [];
  max_images_per_request = some 2;
  tooltip_title = some "";
  tooltip_cost_level = some 1;
}

from_dict-as_dict_example :
    from_dict codec (as_dict codec small) ≡ some (record small { tooltip_title = none })
from_dict-as_dict_example = from_dict-as_dict codec codec-IsFaithful small

abbrev small_row : ModelTier
small_row = record {
  id = 1;
  alias = "fast";
  display_name = "Fast";
  upstream_model_id = "vendor/model";
  upstream_provider_name = "openrouter";
  input_credits_per_1k_tokens = 3;
  output_credits_per_1k_tokens = 6;
  cache_read_multiplier = 1;
  cache_write_multiplier = 2;
  reasoning_multiplier = 1;
  max_output_tokens = 40;
  context_window = 90;
  input_modalities = [];
  output_modalities = "text" ∷ [];
  supports_tools = true;
  pricing_unit = "token";
  max_images_per_request = none;
  is_internal = false;
  fallback_model_ids = [];
  routing_plugin = none;
  tooltip_title = none;
  tooltip_body = none;
  tooltip_cost_level = none;
  tooltip_speed_level = none;
  tooltip_quality_level = none;
  tooltip_best_for = none;
  price_note = none;
  price_note_tr = none;
  speed_hint = none;
  quality_hint = none;
  enabled = true;
}

-- Only a new rate for the input, and the tier switched off.
abbrev switched_off : TierUpdate
switched_off = record {
  display_name = none;
  upstream_model_id = none;
  upstream_provider_name = none;
  input_credits_per_1k_tokens = some 9;
  output_credits_per_1k_tokens = none;
  cache_read_multiplier = none;
  cache_write_multiplier = none;
  reasoning_multiplier = none;
  max_output_tokens = none;
  context_window = none;
  input_modalities = none;
  output_modalities = none;
  supports_tools = none;
  pricing_unit = none;
  max_images_per_request = none;
  is_internal = none;
  fallback_model_ids = none;
  routing_plugin = none;
  tooltip_title = none;
  tooltip_body = none;
  tooltip_cost_level = none;
  tooltip_speed_level = none;
  tooltip_quality_level = none;
  tooltip_best_for = none;
  price_note = none;
  price_note_tr = none;
  speed_hint = none;
  quality_hint = none;
  enabled = some false;
}

abbrev listed : Tiers
listed = record { rows = small_row ∷ []; cache = λ _. none }

listed-IsCoherent : IsCoherent codec listed
listed-IsCoherent alias d e = absurd (clash e)
  where
    clash : Path (Option Dict) none (some d) → ⊥
    clash g = cc

abbrev traffic : List Command
traffic = Command.read "fast" ∷ Command.update 1 switched_off ∷ []

run_commands-Answers_example :
    let w' = run_commands codec traffic listed in
    Answers "fast" w'.rows (get_tier codec "fast" w').0
run_commands-Answers_example =
    run_commands-Answers codec codec-IsFaithful traffic listed "fast" listed-IsCoherent

get_tier_race_example :
    (get_tier codec "fast" (read_around_update codec "fast" 1 switched_off listed)).0
    ≡ ok (some (cached_view (tier_to_view small_row)))
get_tier_race_example =
    get_tier_race codec codec-IsFaithful "fast" 1 switched_off listed small_row served
  where
    served : load_tier "fast" listed.rows ≡ some small_row
    served = unfold load_tier first in refl

-- After the update alone no tier is served.
switched_off_gone : load_tier "fast" (update_tier 1 switched_off listed).1.rows ≡ none
unfolding load_tier first update_tier change_first apply_update
switched_off_gone = refl

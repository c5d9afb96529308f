-- ===== src/Tiers/Cache.antt =====
-- The tiers and their cache: `get_tier` and `invalidate_tier` of evren-backend/app/services/tiers.py, and
-- `create_tier` and `update_tier` of evren-backend/app/routers/admin.py. A cached text is given as the
-- dictionary that `json.loads` makes of it. A key expires by the command `expire`.
pub mod Coherence
pub mod Stale
use Prim.Native.String.{String}
use text.Mathlib.Text.{◌==◌ as str_eq}
use ufuk_ai_agent.Prelude.{
  ℕ, Bool, true, false, ◌&&◌, ◌==◌, Option, none, some, List, [], ◌∷◌, ◌++◌, any, if◌then◌else◌,
}
use ufuk_ai_agent.Prelude.Options.{Dict}
use ufuk_ai_agent.Errors.{Outcome, ok, raise, crash}
use ufuk_ai_agent.Action.{Action}
use ufuk_ai_agent.Subscriptions.Tables.{first}
use ufuk_ai_agent.Auth.{change_first}
use ufuk_ai_agent.Tiers.{TierView}
use ufuk_ai_agent.Tiers.View.{Codec, as_dict, from_dict}
use ufuk_ai_agent.Tiers.Row.{ModelTier, TierUpdate, tier_to_view, apply_update}

pub record Tiers : Type 0 where
  pub rows : List ModelTier
  pub cache : String → Option Dict

abbrev pub put : String → Option Dict → (String → Option Dict) → String → Option Dict
put alias entry cache a = if str_eq a alias then entry else cache a

-- `invalidate_tier` of one alias.
abbrev pub invalidate_tier : String → Tiers → Tiers
invalidate_tier alias w = record w { cache = put alias none w.cache }

abbrev pub has_alias : String → ModelTier → Bool
has_alias alias tier = str_eq tier.alias alias

-- `ModelTier.alias == alias, ModelTier.enabled.is_(True)`
abbrev pub serves : String → ModelTier → Bool
serves alias tier = has_alias alias tier && tier.enabled

abbrev pub has_id : ℕ → ModelTier → Bool
has_id id tier = tier.id == id

-- The query, after the cache missed.
unfoldable pub load_tier : String → List ModelTier → Option ModelTier
load_tier alias rows = first (serves alias) rows

pub data Reply : Type 0 where
  done not_found conflict : Reply

module _ (c : Codec) where
  -- What follows the query: the view goes to the cache and to the caller.
  unfoldable pub keep_tier : String → Option ModelTier → Action Tiers (Option TierView)
  keep_tier alias none w = (ok none, w)
  keep_tier alias (some tier) w = (
    ok (some (tier_to_view tier)),
    record w { cache = put alias (some (as_dict c (tier_to_view tier))) w.cache },
  )

  -- A cached entry.
  unfoldable pub read_tier : Dict → Action Tiers (Option TierView)
  read_tier d w = elim (from_dict c d) [ none ↦ (crash, w) | some v ↦ (ok (some v), w) ]

  unfoldable pub get_tier : String → Action Tiers (Option TierView)
  unfolding keep_tier read_tier load_tier
  get_tier alias w = elim (w.cache alias) [
    | some d ↦ read_tier d w
    | none ↦ keep_tier alias (load_tier alias w.rows) w
  ]

-- `create_tier`: the alias is unique.
unfoldable pub create_tier : ModelTier → Tiers → Reply × Tiers
create_tier tier w =
    if any (has_alias tier.alias) w.rows
    then (conflict, w)
    else (done, invalidate_tier tier.alias (record w { rows = w.rows ++ tier ∷ [] }))

-- The commit of `update_tier`, and what follows it.
unfoldable pub commit_update : ℕ → TierUpdate → Tiers → Tiers
commit_update id values w = record w {
  rows = change_first (has_id id) (apply_update values) w.rows;
}

unfoldable pub update_tier : ℕ → TierUpdate → Tiers → Reply × Tiers
unfolding commit_update
update_tier id values w = elim (first (has_id id) w.rows) [
  | none ↦ (not_found, w)
  | some tier ↦ (done, invalidate_tier tier.alias (commit_update id values w))
]

-- What the tables and the cache undergo.
pub data Command : Type 0 where
  read : String → Command
  create : ModelTier → Command
  update : ℕ → TierUpdate → Command
  expire : String → Command

module _ (c : Codec) where
  unfoldable pub run_command : Command → Tiers → Tiers
  run_command (read alias) w = (get_tier c alias w).1
  run_command (create tier) w = (create_tier tier w).1
  run_command (update id values) w = (update_tier id values w).1
  run_command (expire alias) w = invalidate_tier alias w

  unfoldable pub run_commands : List Command → Tiers → Tiers
  run_commands [] w = w
  run_commands (command ∷ commands) w = run_commands commands (run_command command w)

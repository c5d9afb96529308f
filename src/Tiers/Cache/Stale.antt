-- ===== src/Tiers/Cache/Stale.antt =====
-- `get_tier` of one request interleaved with `update_tier` of another.
use Prim.Native.String.{String}
use text.Mathlib.TextEquality.{eq_iff}
use ufuk_ai_agent.Prelude.{ℕ, ◌≡◌, refl, some}
use ufuk_ai_agent.Errors.{ok}
use ufuk_ai_agent.Tiers.View.{Codec, IsFaithful}
use ufuk_ai_agent.Tiers.View.RoundTrip.{cached_view, from_dict-as_dict}
use ufuk_ai_agent.Tiers.Row.{ModelTier, TierUpdate, tier_to_view}
use ufuk_ai_agent.Tiers.Cache.{Tiers, load_tier, keep_tier, read_tier, get_tier, update_tier}

-- The reader's query, then a whole update, then the rest of the reader.
unfoldable pub read_around_update : Codec → String → ℕ → TierUpdate → Tiers → Tiers
unfolding keep_tier load_tier
read_around_update c alias id values w =
    let found = load_tier alias w.rows in (keep_tier c alias found (update_tier id values w).1).1

module _ (c : Codec) (F : IsFaithful c) where
  kept_answer :
      (alias : String) (tier : ModelTier) (w : Tiers)
      → (get_tier c alias (keep_tier c alias (some tier) w).1).0
        ≡ ok (some (cached_view (tier_to_view tier)))
  unfolding get_tier keep_tier read_tier
  kept_answer alias tier w =
      rw (get_tier, (eq_iff alias alias).1 refl)
        (rw (read_tier, from_dict-as_dict c F (tier_to_view tier)) refl)

  -- Where a request has queried an enabled tier after a miss, an update then runs as a whole, and
  -- the request goes on: the next `get_tier` of the alias answers the view of the row from before
  -- the update, whatever the update was.
  pub get_tier_race :
      (alias : String) (id : ℕ) (values : TierUpdate) (w : Tiers) (tier : ModelTier)
      → load_tier alias w.rows ≡ some tier
      → (get_tier c alias (read_around_update c alias id values w)).0
        ≡ ok (some (cached_view (tier_to_view tier)))
  unfolding read_around_update
  get_tier_race alias id values w tier found =
      rw (read_around_update, found) (kept_answer alias tier _)

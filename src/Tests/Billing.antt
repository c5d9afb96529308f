-- ===== src/Tests/Billing.antt =====
-- The credit arithmetic, the estimates and the settlements at concrete inputs.
use ufuk_ai_agent.Prelude.{◌+◌, ◌*◌, ◌≤◌, ◌<◌, refl, List, [], ◌∷◌, arith}
use ufuk_ai_agent.Prelude.Int.{pos}
use ufuk_ai_agent.Tiers.{TierView}
use ufuk_ai_agent.Credits.{quantize_credits, token_cost, reserve_amount}
use ufuk_ai_agent.Credits.Partition.{quantize_credits_bounds}
use ufuk_ai_agent.Credits.Settlement.{token_cost-le-reserve_amount}
use ufuk_ai_agent.Estimate.{Content, plain, blocks, text, non_text, null}
use ufuk_ai_agent.Usage.{settle_usage_event, count_open}
use ufuk_ai_agent.Usage.Totals.{Agrees, settle-Agrees}
use ufuk_ai_agent.Tests.Samples.{tier, event, charge}

quantize_credits_bounds_example :
    (2 * (quantize_credits 1_500 1_000 * 1_000) ≤ 4_000)
    × (3_000 < 2 * (quantize_credits 1_500 1_000 * 1_000) + 1_000)
quantize_credits_bounds_example = quantize_credits_bounds 1_500 1_000 (omega arith)

token_cost-le-reserve_amount_example :
    token_cost tier (pos 100) (pos 20) (pos 70) (pos 0) (pos 5) ≤ reserve_amount tier 130 1024
token_cost-le-reserve_amount_example =
    token_cost-le-reserve_amount tier (pos 100) (pos 20) (pos 70) (pos 0) (pos 5) 130 1024
      (record { cache_read = omega arith; cache_write = omega arith; reasoning = omega arith })
      (omega arith) (omega arith)

abbrev surcharged : TierView
surcharged = record tier { cache_write_multiplier = 12_500 }

abbrev messages : List Content
messages = plain "hello" ∷ blocks (text "ab" ∷ non_text ∷ []) ∷ null ∷ []

one_open : count_open 5 (event ∷ []) ≤ 1
unfolding count_open
one_open = omega arith

settle-Agrees_example :
    let (_, events', rollups') = settle_usage_event (event ∷ []) [] charge in
    Agrees events' rollups'
settle-Agrees_example =
    settle-Agrees (event ∷ []) [] charge (record { num = 320_000; den = 1 }) refl one_open
      (record { credits = refl; requests = refl })

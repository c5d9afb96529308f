-- ===== src/Tests/Reports.antt =====
-- The report of a period with two tiers.
use ufuk_ai_agent.Prelude.{◌≡◌, refl, List, [], ◌∷◌, length, sum_by, select}
use ufuk_ai_agent.Prelude.Int.{pos}
use text.Mathlib.Text.{◌==◌ as str_eq}
use ufuk_ai_agent.Models.{UsageEvent}
use ufuk_ai_agent.Redis.Memory.{memory, empty}
use ufuk_ai_agent.Ledger.{in_period, ensure_ledger_synced}
use ufuk_ai_agent.Usage.Report.{
  total_credits, period_usage, requests, tier_credits, row_credits, total_credits-period_usage,
}
use ufuk_ai_agent.Prelude.{Bool}
use Prim.Native.String.{String}
use ufuk_ai_agent.Tests.Samples.{event}

abbrev before : String → String → Bool
before a b = str_eq a "deep"

abbrev rows : List UsageEvent
rows = event ∷ record event { tier_alias = "deep"; credits_charged = 7 } ∷ event ∷ []

total_credits-period_usage_example :
    let usage = period_usage before rows 7 0 1_000_000_000 in
    ((ensure_ledger_synced memory empty rows 7 1 0 1_000_000_000 60).0 ≡ pos (total_credits usage))
    × (sum_by requests usage ≡ length (select (in_period 7 0 1_000_000_000) rows))
    × ((alias : String)
        → sum_by (tier_credits alias) usage
          ≡ sum_by (row_credits alias) (select (in_period 7 0 1_000_000_000) rows))
total_credits-period_usage_example =
    total_credits-period_usage before memory empty rows 7 1 0 1_000_000_000 60 refl

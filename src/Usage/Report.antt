-- ===== src/Usage/Report.antt =====
-- The usage report of a period: `period_usage` and `total_credits` of
-- evren-backend/app/services/usage_service.py, beside the sum that `ensure_ledger_synced` writes.
use Prim.Native.String.{String}
use text.Mathlib.Text.{◌==◌ as str_eq}
use text.Mathlib.TextEquality.{eq_iff}
use ufuk_ai_agent.Prelude.{
  ℕ, ◌+◌, ◌≡◌, refl, sym, ap, Bool, Bool-cases, inl, inr, none, or_default, List, [], ◌∷◌, arith,
  length, sum_by, select, if◌then◌else◌,
}
use ufuk_ai_agent.Prelude.Int.{ℤ, pos, ◌+ℤ◌}
use ufuk_ai_agent.Models.{UsageEvent}
use ufuk_ai_agent.Credits.{quantize_credits}
use ufuk_ai_agent.Redis.{Redis, Key}
use ufuk_ai_agent.Ledger.{in_period, period_total, ensure_ledger_synced}

pub record TierUsage : Type 0 where
  pub tier_alias : String
  pub requests : ℕ
  pub prompt_tokens : ℤ
  pub completion_tokens : ℤ
  pub reasoning_tokens : ℤ
  pub credits_charged : ℕ

-- The group of a row alone, and a group with one more row; a sum passes over NULL.
abbrev pub group_of : UsageEvent → TierUsage
group_of e = record {
  tier_alias = e.tier_alias;
  requests = 1;
  prompt_tokens = or_default e.prompt_tokens (pos 0);
  completion_tokens = or_default e.completion_tokens (pos 0);
  reasoning_tokens = e.reasoning_tokens;
  credits_charged = e.credits_charged;
}

abbrev pub with_row : UsageEvent → TierUsage → TierUsage
with_row e g = record {
  tier_alias = g.tier_alias;
  requests = 1 + g.requests;
  prompt_tokens = or_default e.prompt_tokens (pos 0) +ℤ g.prompt_tokens;
  completion_tokens = or_default e.completion_tokens (pos 0) +ℤ g.completion_tokens;
  reasoning_tokens = e.reasoning_tokens +ℤ g.reasoning_tokens;
  credits_charged = e.credits_charged + g.credits_charged;
}

abbrev pub credits : TierUsage → ℕ
credits g = g.credits_charged

-- The credits of one tier, in the groups and in the rows.
abbrev pub tier_credits : String → TierUsage → ℕ
tier_credits alias g = if str_eq g.tier_alias alias then g.credits_charged else 0

abbrev pub row_credits : String → UsageEvent → ℕ
row_credits alias e = if str_eq e.tier_alias alias then e.credits_charged else 0

abbrev pub requests : TierUsage → ℕ
requests g = g.requests

-- `quantize_credits(sum(…))`
unfoldable pub total_credits : List TierUsage → ℕ
total_credits usage = quantize_credits (sum_by credits usage) 1

-- `before` is the collation of the database.
module _ (before : String → String → Bool) where
  -- GROUP BY and ORDER BY the alias.
  unfoldable pub add_row : UsageEvent → List TierUsage → List TierUsage
  add_row e [] = group_of e ∷ []
  add_row e (g ∷ groups) =
      let rest = add_row e groups in
      if str_eq g.tier_alias e.tier_alias
      then with_row e g ∷ groups
      else if before e.tier_alias g.tier_alias
      then group_of e ∷ g ∷ groups
      else g ∷ rest

  unfoldable pub group_rows : List UsageEvent → List TierUsage
  unfolding add_row
  group_rows [] = []
  group_rows (e ∷ rows) = add_row e (group_rows rows)

  -- The values are sums of whole micro-credits, so that quantising them changes nothing.
  unfoldable pub period_usage : List UsageEvent → ℕ → ℕ → ℕ → List TierUsage
  unfolding group_rows
  period_usage rows user period_start period_end =
      group_rows (select (in_period user period_start period_end) rows)

  add_row-sums :
      (e : UsageEvent) (groups : List TierUsage)
      → (sum_by credits (add_row e groups) ≡ e.credits_charged + sum_by credits groups)
        × (sum_by requests (add_row e groups) ≡ 1 + sum_by requests groups)
  unfolding add_row
  add_row-sums e [] = (omega arith, omega arith)
  add_row-sums e (g ∷ groups) = elim (Bool-cases (str_eq g.tier_alias e.tier_alias)) [
    | inl same ↦ rw same (omega arith, omega arith)
    | inr other ↦ elim (Bool-cases (before e.tier_alias g.tier_alias)) [
      | inl first ↦ rw (other, first) (omega arith, omega arith)
      | inr later ↦
          rw (other, later)
            (omega (arith, (add_row-sums e groups).0), omega (arith, (add_row-sums e groups).1))
    ]
  ]

  add_row-tier :
      (alias : String) (e : UsageEvent) (groups : List TierUsage)
      → sum_by (tier_credits alias) (add_row e groups)
        ≡ row_credits alias e + sum_by (tier_credits alias) groups
  unfolding add_row
  add_row-tier alias e [] = omega arith
  add_row-tier alias e (g ∷ groups) = elim (Bool-cases (str_eq g.tier_alias e.tier_alias)) [
    | inl same ↦ rw (same, sym ((eq_iff g.tier_alias e.tier_alias).0 same)) (ground arith)
    | inr other ↦ elim (Bool-cases (before e.tier_alias g.tier_alias)) [
      | inl first ↦ rw (other, first) (omega arith)
      | inr later ↦ rw (other, later) (omega (arith, add_row-tier alias e groups))
    ]
  ]

  group_rows-tier :
      (alias : String) (rows : List UsageEvent)
      → sum_by (tier_credits alias) (group_rows rows) ≡ sum_by (row_credits alias) rows
  unfolding group_rows
  group_rows-tier alias [] = refl
  group_rows-tier alias (e ∷ rows) =
      omega (arith, add_row-tier alias e (group_rows rows), group_rows-tier alias rows)

  group_rows-sums :
      (rows : List UsageEvent)
      → (sum_by credits (group_rows rows) ≡ sum_by (λ (e : UsageEvent). e.credits_charged) rows)
        × (sum_by requests (group_rows rows) ≡ length rows)
  unfolding group_rows
  group_rows-sums [] = (refl, refl)
  group_rows-sums (e ∷ rows) = (
    omega (arith, (add_row-sums e (group_rows rows)).0, (group_rows-sums rows).0),
    omega (arith, (add_row-sums e (group_rows rows)).1, (group_rows-sums rows).1),
  )

  -- The report of a period against the ledger and the rows, whatever the collation. Where the
  -- period has no ledger key, the value that `ensure_ledger_synced` rebuilds is the report's total
  -- of credits; the report's requests are as many as the period's counted rows; and for every tier
  -- the credits of its groups sum to those of its counted rows.
  pub total_credits-period_usage :
      (R : Redis) (s : R.Store) (rows : List UsageEvent)
      (user period_key period_start period_end ttl_seconds : ℕ)
      → R.get s (Key.credits user period_key) ≡ none
      → let usage = period_usage rows user period_start period_end in
        ((ensure_ledger_synced R s rows user period_key period_start period_end ttl_seconds).0
          ≡ pos (total_credits usage))
        × (sum_by requests usage ≡ length (select (in_period user period_start period_end) rows))
        × ((alias : String)
            → sum_by (tier_credits alias) usage
              ≡ sum_by (row_credits alias) (select (in_period user period_start period_end) rows))
  unfolding total_credits period_usage ensure_ledger_synced period_total
  total_credits-period_usage R s rows user period_key period_start period_end ttl_seconds cold = (
    rw (ensure_ledger_synced, cold)
        (ap (λ n. pos (quantize_credits n 1))
          (sym (group_rows-sums (select (in_period user period_start period_end) rows)).0)),
    (group_rows-sums (select (in_period user period_start period_end) rows)).1,
    (λ alias. group_rows-tier alias (select (in_period user period_start period_end) rows)),
  )

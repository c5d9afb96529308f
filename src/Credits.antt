-- ===== src/Credits.antt =====
-- The credit arithmetic of evren-backend/app/services/credits.py: `quantize_credits`, `token_cost`
-- and `reserve_amount`. Credits are whole micro-credits, the unit of `CREDIT_QUANTUM`.
pub mod Partition
pub mod Settlement
use ufuk_ai_agent.Prelude.{ℕ, ◌+◌, ◌*◌, ◌/◌}
use ufuk_ai_agent.Prelude.Int.{ℤ, pos, pos_part, ◌-ℤ◌, min_ℤ, max_ℤ}
use ufuk_ai_agent.Tiers.{TierView}

-- `Decimal.quantize(CREDIT_QUANTUM, ROUND_HALF_UP)` of `num / den` micro-credits.
unfoldable pub quantize_credits : ℕ → ℕ → ℕ
quantize_credits num den = (2 * num + den) / (2 * den)

pub record Buckets : Type 0 where
  pub fresh : ℤ
  pub cached : ℤ
  pub written : ℤ
  pub visible : ℤ
  pub reasoning : ℤ

-- The five local variables at the head of `token_cost`.
unfoldable pub buckets : ℤ → ℤ → ℤ → ℤ → ℤ → Buckets
buckets prompt completion cached_prompt cache_write reasoning_tokens =
    let cached : ℤ = max_ℤ (pos 0) (min_ℤ cached_prompt prompt) in
    let written : ℤ = max_ℤ (pos 0) (min_ℤ cache_write (prompt -ℤ cached)) in
    let reasoning : ℤ = max_ℤ (pos 0) (min_ℤ reasoning_tokens completion) in
    record {
      fresh = max_ℤ (prompt -ℤ cached -ℤ written) (pos 0);
      cached = cached;
      written = written;
      visible = max_ℤ (completion -ℤ reasoning) (pos 0);
      reasoning = reasoning;
    }

-- The sum in `token_cost` before its division by 1000, in units of 10⁻¹⁰ credits: a rate has six
-- decimal places and a multiplier four.
unfoldable pub bucket_cost : TierView → Buckets → ℕ
bucket_cost tier b =
    pos_part b.fresh * input * 10_000
    + pos_part b.cached * input * tier.cache_read_multiplier
    + pos_part b.written * input * tier.cache_write_multiplier
    + pos_part b.visible * output * 10_000
    + pos_part b.reasoning * output * tier.reasoning_multiplier
  where
    open tier use {input_credits_per_1k_tokens as input, output_credits_per_1k_tokens as output}

unfoldable pub token_cost : TierView → ℤ → ℤ → ℤ → ℤ → ℤ → ℕ
unfolding quantize_credits
token_cost tier prompt completion cached_prompt cache_write reasoning_tokens =
    quantize_credits
      (bucket_cost tier (buckets prompt completion cached_prompt cache_write reasoning_tokens))
      10_000_000

unfoldable pub reserve_amount : TierView → ℕ → ℕ → ℕ
unfolding quantize_credits
reserve_amount tier estimated_prompt_tokens max_output_tokens =
    quantize_credits
      (estimated_prompt_tokens * tier.input_credits_per_1k_tokens
        + max_output_tokens * tier.output_credits_per_1k_tokens)
      1_000

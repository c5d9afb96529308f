-- ===== src/Credits/Partition.antt =====
-- The buckets into which `token_cost` splits the tokens of a request, and its rounding.
use ufuk_ai_agent.Prelude.{ℕ, ◌+◌, ◌*◌, ◌≤◌, ◌<◌, ◌≡◌, arith}
use ufuk_ai_agent.Prelude.Int.{ℤ, pos_part, neg_part, ◌-ℤ◌}
use ufuk_ai_agent.Credits.{quantize_credits, buckets}

-- For any integers that the upstream reports, negative and inconsistent ones too, the three prompt
-- buckets are not negative and add up to the prompt's tokens, and the two completion buckets are
-- not negative and add up to the completion's; a negative total counts as zero.
pub buckets_partition :
    (p c cached written reasoning : ℤ)
    → let b = buckets p c cached written reasoning in
      (pos_part b.fresh + pos_part b.cached + pos_part b.written ≡ pos_part p)
      × (pos_part b.visible + pos_part b.reasoning ≡ pos_part c)
      × (neg_part b.fresh + neg_part b.cached + neg_part b.written ≡ 0)
      × (neg_part b.visible + neg_part b.reasoning ≡ 0)
unfolding buckets ◌-ℤ◌
buckets_partition p c cached written reasoning =
    (ground arith, ground arith, ground arith, ground arith)

-- Rounding half up to the quantum errs by at most half a quantum, and upwards on a tie.
pub quantize_credits_bounds :
    (num den : ℕ)
    → 0 < den
    → (2 * (quantize_credits num den * den) ≤ 2 * num + den)
      × (2 * num < 2 * (quantize_credits num den * den) + den)
unfolding quantize_credits
quantize_credits_bounds num den h = (grind arith, grind arith)

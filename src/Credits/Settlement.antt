-- ===== src/Credits/Settlement.antt =====
-- What settlement charges, against what was reserved.
use ufuk_ai_agent.Prelude.{ℕ, ◌+◌, ◌*◌, ◌≤◌, ◌<◌, ◌≡◌, arith}
use ufuk_ai_agent.Prelude.Int.{ℤ, pos, pos_part, ◌-ℤ◌}
use ufuk_ai_agent.Tiers.{TierView}
use ufuk_ai_agent.Credits.{
  quantize_credits, Buckets, buckets, bucket_cost, token_cost, reserve_amount,
}
use ufuk_ai_agent.Credits.Partition.{buckets_partition, quantize_credits_bounds}

pub quantize_credits_mono :
    (a b den : ℕ) → 0 < den → a ≤ b → quantize_credits a den ≤ quantize_credits b den
unfolding quantize_credits
quantize_credits_mono a b den h k = grind arith

quantize_credits_scale :
    (a : ℕ) → quantize_credits (a * 10_000) 10_000_000 ≡ quantize_credits a 1_000
unfolding quantize_credits
quantize_credits_scale a = omega arith

-- No multiplier is a surcharge.
pub record IsDiscounted (t : TierView) : Type 0 where
  pub cache_read : t.cache_read_multiplier ≤ 10_000
  pub cache_write : t.cache_write_multiplier ≤ 10_000
  pub reasoning : t.reasoning_multiplier ≤ 10_000

-- Every multiplier is 1.0.
pub record IsNeutral (t : TierView) : Type 0 where
  pub cache_read : t.cache_read_multiplier ≡ 10_000
  pub cache_write : t.cache_write_multiplier ≡ 10_000
  pub reasoning : t.reasoning_multiplier ≡ 10_000

term_le : (n rate m : ℕ) → m ≤ 10_000 → n * rate * m ≤ n * rate * 10_000
term_le n rate m h = grind arith

product_le : (n k rate : ℕ) → n ≤ k → n * rate ≤ k * rate
product_le n k rate h = grind arith

bucket_cost-neutral :
    (t : TierView) (b : Buckets)
    → IsNeutral t
    → bucket_cost t b
      ≡ ((pos_part b.fresh + pos_part b.cached + pos_part b.written) * t.input_credits_per_1k_tokens
          + (pos_part b.visible + pos_part b.reasoning) * t.output_credits_per_1k_tokens)
        * 10_000
unfolding bucket_cost
bucket_cost-neutral t b h = rw (h.cache_read, h.cache_write, h.reasoning) (omega arith)

bucket_cost-le :
    (t : TierView) (b : Buckets)
    → IsDiscounted t
    → bucket_cost t b
      ≤ ((pos_part b.fresh + pos_part b.cached + pos_part b.written) * t.input_credits_per_1k_tokens
          + (pos_part b.visible + pos_part b.reasoning) * t.output_credits_per_1k_tokens)
        * 10_000
unfolding bucket_cost
bucket_cost-le t b h = omega (
  arith,
  term_le (pos_part b.cached) t.input_credits_per_1k_tokens t.cache_read_multiplier h.cache_read,
  term_le (pos_part b.written) t.input_credits_per_1k_tokens t.cache_write_multiplier h.cache_write,
  term_le (pos_part b.reasoning) t.output_credits_per_1k_tokens t.reasoning_multiplier h.reasoning,
)

module _ (t : TierView) (p c cached written reasoning : ℤ) where
  -- For a tier whose multipliers are all 1, the cost of a request is the reservation amount of its
  -- token counts, however the tokens fall into buckets.
  pub token_cost-neutral :
      IsNeutral t
      → token_cost t p c cached written reasoning ≡ reserve_amount t (pos_part p) (pos_part c)
  unfolding token_cost reserve_amount
  token_cost-neutral h =
      let (prompt, completion, _, _) = buckets_partition p c cached written reasoning in
      rw (bucket_cost-neutral t _ h, prompt, completion) (quantize_credits_scale _)

  -- For a tier whose multipliers are at most 1, and token counts within the reserved prompt
  -- estimate and output cap, a request never costs more than was reserved for it.
  pub token_cost-le-reserve_amount :
      (est max_tokens : ℕ)
      → IsDiscounted t
      → pos_part p ≤ est
      → pos_part c ≤ max_tokens
      → token_cost t p c cached written reasoning ≤ reserve_amount t est max_tokens
  unfolding token_cost reserve_amount
  token_cost-le-reserve_amount est max_tokens h hp hc =
      let (prompt, completion, _, _) = buckets_partition p c cached written reasoning in
      let bound = bucket_cost-le t (buckets p c cached written reasoning) h in
      omega (
        arith,
        (rw (prompt, completion) at bound),
        product_le (pos_part p) est t.input_credits_per_1k_tokens hp,
        product_le (pos_part c) max_tokens t.output_credits_per_1k_tokens hc,
      )

  -- The charge differs from the exact cost by at most half a micro-credit, and a tie is charged
  -- upwards.
  pub token_cost_rounding :
      let exact = bucket_cost t (buckets p c cached written reasoning) in
      let charged = token_cost t p c cached written reasoning * 10_000_000 in
      (charged ≤ exact + 5_000_000) × (exact < charged + 5_000_000)
  unfolding token_cost
  token_cost_rounding = omega (
    arith,
    quantize_credits_bounds (bucket_cost t (buckets p c cached written reasoning)) 10_000_000
        (omega arith),
  )

buckets_all_written :
    (n : ℕ)
    → buckets (pos n) (pos 0) (pos 0) (pos n) (pos 0) ≡ record {
      fresh = pos 0;
      cached = pos 0;
      written = pos n;
      visible = pos 0;
      reasoning = pos 0;
    }
unfolding buckets ◌-ℤ◌
buckets_all_written n = ground arith

-- For a tier whose cache-write multiplier exceeds 1 by enough for one micro-credit, a prompt that
-- is written to the cache as a whole costs more than the reservation for exactly its tokens.
pub token_cost-cache_write_premium :
    (t : TierView) (n extra : ℕ)
    → t.cache_write_multiplier ≡ 10_000 + extra
    → 10_000_000 ≤ n * t.input_credits_per_1k_tokens * extra
    → reserve_amount t n 0 < token_cost t (pos n) (pos 0) (pos 0) (pos n) (pos 0)
unfolding token_cost reserve_amount bucket_cost
token_cost-cache_write_premium t n extra e h = rw (buckets_all_written n, e) (omega arith)

-- ===== src/Images/Quota.antt =====
-- The image quota of a billing period: `consume_quota` before the upstream call, and the check of
-- `store` after it.
use ufuk_ai_agent.Prelude.{
  ℕ, ◌+◌, ◌*◌, ◌/◌, ◌-◌, ◌<◌, ◌≤◌, ◌≡◌, refl, sym, subst, inl, inr, ◌⊎◌, Bool-cases, Option-cases,
  true, false, ◌||◌, ltb, none, some, List, [], ◌∷◌, ◌++◌, if◌then◌else◌, arith,
}
use ufuk_ai_agent.Errors.{Outcome, api_error}
use ufuk_ai_agent.Models.{Plan}
use ufuk_ai_agent.Credits.{quantize_credits}
use ufuk_ai_agent.Usage.{quantized}
use ufuk_ai_agent.Images.{
  ImageQuality, standard, high, ultra, BillingPeriod, GeneratedImage, Gallery, NewImage, micro,
  credit_weight, max_images_per_request, period_scope, charged_sum, quota_for, consume_quota,
  image_row, over_quota, store,
}

quantize_credits_le : (num den r : ℕ) → 0 < den → num ≤ r * den → quantize_credits num den ≤ r
unfolding quantize_credits
quantize_credits_le num den r h k = grind arith

charged_sum-append :
    (rows : List GeneratedImage) (r : GeneratedImage) (user : ℕ) (p : BillingPeriod)
    → charged_sum (rows ++ r ∷ []) user p
      ≡ charged_sum rows user p + (if period_scope user p r then r.credits_charged else 0)
unfolding charged_sum
charged_sum-append [] r user p = ground arith
charged_sum-append (x ∷ rows) r user p = ground (arith, charged_sum-append rows r user p)

-- The use of the period is within a quota.
abbrev pub Within : ℕ → ℕ → BillingPeriod → Gallery → Type 0
Within m user p g = charged_sum g.images user p / micro ≤ m

out_of_range : (n : ℕ) → ltb n 1 || ltb max_images_per_request n ≡ true → (n < 1) ⊎ (4 < n)
out_of_range n h = ground arith

in_range : (n : ℕ) → ltb n 1 || ltb max_images_per_request n ≡ false → 1 ≤ n
in_range n h = ground arith

charge_positive : (quality : ImageQuality) (n : ℕ) → 1 ≤ n → 1 ≤ credit_weight quality * n
unfolding credit_weight
charge_positive standard n h = omega arith
charge_positive high n h = omega arith
charge_positive ultra n h = omega arith

charge_fits :
    (quality : ImageQuality) (n m used : ℕ)
    → 1 ≤ n
    → ltb (m - used) (credit_weight quality * n) ≡ false
    → used + credit_weight quality * n ≤ m
charge_fits quality n m used h k = ground (arith, charge_positive quality n h)

-- How `consume_quota` ends.
abbrev pub Consumes :
    List GeneratedImage → ℕ → Plan → ImageQuality → ℕ → BillingPeriod → Outcome ℕ → Type 0
Consumes rows user plan quality n p (Outcome.ok total) =
    (m : ℕ) × (plan.monthly_image_quota ≡ some m)
    × (1 ≤ n)
    × (n ≤ 4)
    × (total ≡ credit_weight quality * n)
    × (charged_sum rows user p / micro + total ≤ m)
Consumes rows user plan quality n p (Outcome.raise e) =
    ((plan.monthly_image_quota ≡ none) × (e ≡ api_error 403 "image_generation_disabled"))
    ⊎ ((((n < 1) ⊎ (4 < n)) × (e ≡ api_error 400 "invalid_image_count"))
        ⊎ ((m : ℕ) × (plan.monthly_image_quota ≡ some m)
            × (m < charged_sum rows user p / micro + credit_weight quality * n)
            × (e ≡ api_error 402 "image_quota_exceeded")))
Consumes rows user plan quality n p Outcome.crash = ⊥

module _ (rows : List GeneratedImage) (user : ℕ) (plan : Plan) (quality : ImageQuality) (n : ℕ)
    (p : BillingPeriod) where
  -- `consume_quota` returns the weight of the quality times the count where the plan has a quota,
  -- the count is 1 to 4, and the whole credits used with that total are within the quota. It
  -- raises 403 where the plan has none, 400 for another count, and 402 where the total passes the
  -- quota.
  pub consume_quota-Consumes :
      Consumes rows user plan quality n p (consume_quota rows user plan quality n p)
  unfolding consume_quota quota_for
  consume_quota-Consumes = elim (Option-cases plan.monthly_image_quota) [
    | inl disabled ↦ rw disabled (inl (refl, refl))
    | inr (m, e) ↦ elim (Bool-cases (ltb n 1 || ltb max_images_per_request n)) [
      | inl bad ↦ rw (e, bad) (inr (inl (out_of_range n bad, refl)))
      | inr fine ↦
          elim (Bool-cases
            (ltb (m - charged_sum rows user p / micro) (credit_weight quality * n))) [
              | inl over ↦ rw (e, fine, over) (inr (inr (m, refl, ground arith, refl)))
              | inr fits ↦
                  rw (e, fine, fits)
                    (
                      m,
                      refl,
                      ground arith,
                      ground arith,
                      refl,
                      charge_fits quality n m _ (in_range n fine) fits,
                    )
            ]
    ]
  ]

module _ (v : NewImage) (image_id created_at : ℕ) (plan : Plan) (p : BillingPeriod) (m : ℕ)
    (planned : v.plan ≡ some plan) (periodic : v.period ≡ some p)
    (quota : plan.monthly_image_quota ≡ some m) (shared : 0 < v.credits_charged.den) where
  in_scope : period_scope v.user_id p (image_row v image_id created_at) ≡ true
  unfolding period_scope image_row
  in_scope = rw periodic (ground arith)

  within_bound :
      (images : List GeneratedImage)
      → over_quota images v ≡ false
      → v.credits_charged.num
        ≤ (m - charged_sum images v.user_id p / micro) * micro * v.credits_charged.den
  unfolding over_quota quota_for
  within_bound images h = let k = (rw (planned, periodic, quota) at h) in ground (arith, k)

  within_share :
      (images : List GeneratedImage)
      → over_quota images v ≡ false
      → quantized v.credits_charged ≤ (m - charged_sum images v.user_id p / micro) * micro
  within_share images h =
      quantize_credits_le v.credits_charged.num v.credits_charged.den
        ((m - charged_sum images v.user_id p / micro) * micro) shared (within_bound images h)

  stored_images :
      (g : Gallery)
      → over_quota g.images v ≡ false
      → (store v image_id created_at g).1.images ≡ g.images ++ image_row v image_id created_at ∷ []
  unfolding store
  stored_images g fits = rw fits refl

  stored_sum_bound :
      (g : Gallery)
      → Within m v.user_id p g
      → quantized v.credits_charged ≤ (m - charged_sum g.images v.user_id p / micro) * micro
      → (charged_sum g.images v.user_id p + (image_row v image_id created_at).credits_charged)
          / micro
        ≤ m
  unfolding image_row
  stored_sum_bound g within h = omega (arith, within, h)

  -- A store.
  pub store-Within :
      (g : Gallery)
      → Within m v.user_id p g
      → Within m v.user_id p (store v image_id created_at g).1
  unfolding store
  store-Within g within = elim (Bool-cases (over_quota g.images v)) [
    | inl over ↦ rw over within
    | inr fits ↦
        subst (λ images. charged_sum images v.user_id p / micro ≤ m) (sym (stored_images g fits))
          (rw (charged_sum-append, in_scope)
            (stored_sum_bound g within (within_share g.images fits)))
  ]

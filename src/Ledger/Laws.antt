-- ===== src/Ledger/Laws.antt =====
-- The effect of each operation of `CreditLedger` and `BudgetLedger` of credits.py on the store.
use ufuk_ai_agent.Prelude.{
  ℕ, zero, suc, List, ◌+◌, ◌<◌, ◌≡◌, ◌≢◌, inl, inr, refl, Bool-cases, Option-cases, or_default,
  none, some, arith, ◌∙◌,
}
use ufuk_ai_agent.Prelude.Int.{ℤ, pos, negsuc, ◌+ℤ◌, ◌-ℤ◌, ◌≤ℤ◌, ◌<ℤ◌, ltb_ℤ, int_laws}
use ufuk_ai_agent.Errors.{Outcome, ok, api_error}
use ufuk_ai_agent.Models.{UsageEvent}
use ufuk_ai_agent.Credits.{quantize_credits}
use ufuk_ai_agent.Redis.{Redis, Key, IsLawful, value_at}
use ufuk_ai_agent.Ledger.{
  reserve, adjust, release, consume, window_start, ensure_ledger_synced, period_total,
}

pub rollback_cancels : (v : ℤ) (a : ℕ) → v +ℤ pos a +ℤ (pos 0 -ℤ pos a) ≡ v
rollback_cancels v a = omega int_laws

-- A whole number of micro-credits is its own quantum.
pub quantize_credits_whole : (n : ℕ) → quantize_credits n 1 ≡ n
unfolding quantize_credits
quantize_credits_whole n = omega arith

module _ (R : Redis) (L : IsLawful R) where
  pub value_at-incrby_self :
      (s : R.Store) (k : Key) (d : ℤ) → value_at R (R.incrby s k d).1 k ≡ value_at R s k +ℤ d
  value_at-incrby_self s k d = rw (L.get-incrby_self s k d)

  pub value_at-incrby_ne :
      (s : R.Store) (k j : Key) (d : ℤ) → j ≢ k → value_at R (R.incrby s k d).1 j ≡ value_at R s j
  value_at-incrby_ne s k j d h = rw (L.get-incrby_ne s k j d h)

  pub value_at-rollback :
      (s : R.Store) (k : Key) (a : ℕ)
      → value_at R (R.incrby (R.incrby s k (pos a)).1 k (pos 0 -ℤ pos a)).1 k ≡ value_at R s k
  value_at-rollback s k a =
      rw (value_at-incrby_self, value_at-incrby_self) (rollback_cancels (value_at R s k) a)

  -- What a reservation of `amount` under `limit` did to the store, by how it ended.
  abbrev pub Reserves :
      (s : R.Store) (k : Key) (amount limit : ℕ) → Outcome (Unit {0}) × R.Store → Type 0
  Reserves s k amount limit (Outcome.ok _, s') =
      (value_at R s k +ℤ pos amount ≤ℤ pos limit)
      × (value_at R s' k ≡ value_at R s k +ℤ pos amount)
      × ((j : Key) → j ≢ k → R.get s' j ≡ R.get s j)
  Reserves s k amount limit (Outcome.raise e, s') =
      (pos limit <ℤ value_at R s k +ℤ pos amount)
      × (value_at R s' k ≡ value_at R s k)
      × ((j : Key) → j ≢ k → R.get s' j ≡ R.get s j)
      × (e ≡ api_error 402 "quota_exceeded")
  Reserves s k amount limit (Outcome.crash, s') = ⊥

  -- `CreditLedger.reserve` succeeds exactly where the counter plus the amount is within the limit,
  -- and then adds the amount; else it raises `quota_exceeded` and the counter has its old value.
  -- No other key changes.
  pub reserve-Reserves :
      (s : R.Store) (k : Key) (amount limit : ℕ)
      → Reserves s k amount limit (reserve R s k amount limit)
  unfolding reserve
  reserve-Reserves s k amount limit =
      elim (Bool-cases (ltb_ℤ (pos limit) (value_at R s k +ℤ pos amount))) [
        | inl over ↦
            rw (L.reply-incrby s k (pos amount), over)
              (
                ground arith,
                value_at-rollback s k amount,
                (λ j h. L.get-incrby_ne _ k j _ h ∙ L.get-incrby_ne s k j _ h),
                refl,
              )
        | inr fits ↦
            rw (L.reply-incrby s k (pos amount), fits)
              (
                ground arith,
                value_at-incrby_self s k (pos amount),
                (λ j h. L.get-incrby_ne s k j _ h),
              )
      ]

  pub value_at-adjust :
      (s : R.Store) (k : Key) (d : ℤ) → value_at R (adjust R s k d) k ≡ value_at R s k +ℤ d
  unfolding adjust
  value_at-adjust s k (pos zero) = omega int_laws
  value_at-adjust s k (pos (suc n)) = value_at-incrby_self s k (pos (suc n))
  value_at-adjust s k (negsuc n) = value_at-incrby_self s k (negsuc n)

  pub get-adjust_ne :
      (s : R.Store) (k j : Key) (d : ℤ) → j ≢ k → R.get (adjust R s k d) j ≡ R.get s j
  unfolding adjust
  get-adjust_ne s k j (pos zero) h = refl
  get-adjust_ne s k j (pos (suc n)) h = L.get-incrby_ne s k j (pos (suc n)) h
  get-adjust_ne s k j (negsuc n) h = L.get-incrby_ne s k j (negsuc n) h

  pub value_at-release :
      (s : R.Store) (k : Key) (amount : ℕ)
      → value_at R (release R s k amount) k ≡ value_at R s k -ℤ pos amount
  unfolding release
  value_at-release s k amount = value_at-adjust s k _ ∙ omega int_laws

  pub get-release_ne :
      (s : R.Store) (k j : Key) (amount : ℕ) → j ≢ k → R.get (release R s k amount) j ≡ R.get s j
  unfolding release
  get-release_ne s k j amount h = get-adjust_ne s k j _ h

  Reserves-value :
      (s : R.Store) (k : Key) (amount limit : ℕ) (r : Outcome (Unit {0}) × R.Store)
      → Reserves s k amount limit r
      → r.0 ≡ ok tt
      → value_at R r.1 k ≡ value_at R s k +ℤ pos amount
  Reserves-value s k amount limit (Outcome.ok _, s') h e = h.1
  Reserves-value s k amount limit (Outcome.raise _, s') h e = cc
  Reserves-value s k amount limit (Outcome.crash, s') h e = absurd h

  pub reserve_ok_value :
      (s : R.Store) (k : Key) (amount limit : ℕ)
      → (reserve R s k amount limit).0 ≡ ok tt
      → value_at R (reserve R s k amount limit).1 k ≡ value_at R s k +ℤ pos amount
  reserve_ok_value s k amount limit h =
      Reserves-value s k amount limit _ (reserve-Reserves s k amount limit) h

  pub reserve-adjust_settles :
      (s : R.Store) (k : Key) (amount limit actual : ℕ)
      → (reserve R s k amount limit).0 ≡ ok tt
      → let s' = (reserve R s k amount limit).1 in
        (value_at R (adjust R s' k (pos actual -ℤ pos amount)) k ≡ value_at R s k +ℤ pos actual)
        × (value_at R (release R s' k amount) k ≡ value_at R s k)
  reserve-adjust_settles s k amount limit actual h =
      let s' = (reserve R s k amount limit).1 in
      let e = reserve_ok_value s k amount limit h in
      (
        value_at-adjust s' k (pos actual -ℤ pos amount) ∙ rw e (omega int_laws),
        value_at-release s' k amount ∙ rw e (omega int_laws),
      )

  -- What a `consume` did to the window's counter, by how it ended.
  abbrev pub Consumes :
      (s : R.Store) (k : Key) (amount limit ttl : ℕ) → Outcome (Unit {0}) × R.Store → Type 0
  Consumes s k amount limit ttl (Outcome.ok _, s') =
      (value_at R s k +ℤ pos amount ≤ℤ pos limit)
      × (value_at R s' k ≡ value_at R s k +ℤ pos amount)
      × (R.ttl s' k ≡ pos ttl)
      × ((j : Key) → j ≢ k → R.get s' j ≡ R.get s j)
  Consumes s k amount limit ttl (Outcome.raise e, s') =
      (pos limit <ℤ value_at R s k +ℤ pos amount)
      × (value_at R s' k ≡ value_at R s k)
      × (R.ttl s' k ≡ pos ttl)
      × ((j : Key) → j ≢ k → R.get s' j ≡ R.get s j)
      × (e ≡ api_error 402 "window_budget_exceeded")
  Consumes s k amount limit ttl (Outcome.crash, s') = ⊥

  -- `BudgetLedger.consume` succeeds exactly where the window's counter plus the amount is within
  -- the limit, and then adds the amount; else it raises `window_budget_exceeded` and the counter
  -- has its old value. Either way the key expires five seconds after the window's length, and no
  -- other key changes.
  pub consume-Consumes :
      (s : R.Store) (user amount limit window_seconds now : ℕ)
      → Consumes s
          (Key.budget user (window_start window_seconds now))
          amount
          limit
          (window_seconds + 5)
          (consume R s user amount limit window_seconds now)
  unfolding consume
  consume-Consumes s user amount limit window_seconds now =
      let k = Key.budget user (window_start window_seconds now) in
      let s₁ = (R.incrby s k (pos amount)).1 in
      let s₂ = R.expire s₁ k (window_seconds + 5) in
      let grace : 0 < window_seconds + 5 = omega arith in
      let stored : R.get s₂ k ≡ some (value_at R s k +ℤ pos amount) =
        L.get-expire s₁ k k _ grace ∙ L.get-incrby_self s k (pos amount) in
      let others : (j : Key) → j ≢ k → R.get s₂ j ≡ R.get s j =
        λ j h. L.get-expire s₁ k j _ grace ∙ L.get-incrby_ne s k j _ h in
      let lives : R.ttl s₂ k ≡ pos (window_seconds + 5) =
        L.ttl-expire_self s₁ k _ grace (L.get-incrby_self s k (pos amount)) in
      elim (Bool-cases (ltb_ℤ (pos limit) (value_at R s k +ℤ pos amount))) [
        | inl over ↦
            rw (L.reply-incrby s k (pos amount), over)
              (
                ground arith,
                value_at-incrby_self s₂ k _ ∙ rw stored (rollback_cancels _ amount),
                L.ttl-incrby_old s₂ k _ stored ∙ lives,
                (λ j h. L.get-incrby_ne s₂ k j _ h ∙ others j h),
                refl,
              )
        | inr fits ↦
            rw (L.reply-incrby s k (pos amount), fits) (ground arith, rw stored, lives, others)
      ]

  ensure_missing :
      (s : R.Store) (rows : List UsageEvent)
      (user period_key period_start period_end ttl_seconds : ℕ)
      → R.get s (Key.credits user period_key) ≡ none
      → ensure_ledger_synced R s rows user period_key period_start period_end ttl_seconds ≡ (
          let total = pos (period_total rows user period_start period_end) in
          (total, R.set s (Key.credits user period_key) total ttl_seconds))
  unfolding ensure_ledger_synced
  ensure_missing s rows user period_key period_start period_end ttl_seconds e =
      ground (arith, quantize_credits_whole (period_total rows user period_start period_end))

  ensure_found :
      (s : R.Store) (rows : List UsageEvent)
      (user period_key period_start period_end ttl_seconds : ℕ) (v : ℤ)
      → R.get s (Key.credits user period_key) ≡ some v
      → ensure_ledger_synced R s rows user period_key period_start period_end ttl_seconds ≡ (v, s)
  unfolding ensure_ledger_synced
  ensure_found s rows user period_key period_start period_end ttl_seconds v e = ground arith

  -- With a positive time to live, after the sync the period's key holds the value it returned: the
  -- value that was there, or, where there was none, the sum of the user's reserved and settled
  -- events of the period. No other key changes.
  pub ensure_ledger_synced_lem :
      (s : R.Store) (rows : List UsageEvent)
      (user period_key period_start period_end ttl_seconds : ℕ)
      → 0 < ttl_seconds
      → let k = Key.credits user period_key in
        let (value, s') =
          ensure_ledger_synced R s rows user period_key period_start period_end ttl_seconds in
        (R.get s' k ≡ some value)
        × (value ≡ or_default (R.get s k) (pos (period_total rows user period_start period_end)))
        × ((j : Key) → j ≢ k → R.get s' j ≡ R.get s j)
  ensure_ledger_synced_lem s rows user period_key period_start period_end ttl_seconds t =
      let k = Key.credits user period_key in
      let total = pos (period_total rows user period_start period_end) in
      elim (Option-cases (R.get s k)) [
        | inl missing ↦
            rw (ensure_missing s rows user period_key period_start period_end ttl_seconds missing) (
              L.get-set_self s k total ttl_seconds t,
              rw missing,
              (λ j h. L.get-set_ne s k j total ttl_seconds t h),
            )
        | inr (v, found) ↦
            rw (ensure_found s rows user period_key period_start period_end ttl_seconds v found)
              (found, rw found, (λ j h. refl))
      ]

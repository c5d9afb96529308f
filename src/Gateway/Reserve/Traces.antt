-- ===== src/Gateway/Reserve/Traces.antt =====
-- What a reservation leaves behind, by how it ended.
use Prim.Native.String.{String}
use ufuk_ai_agent.Prelude.{
  ℕ, ◌+◌, ◌<◌, ◌≡◌, ◌≢◌, refl, ap, ◌∙◌, inl, inr, ◌⊎◌, Bool-cases, Option-cases, true, false,
  Option, List, [], ◌∷◌, ◌++◌, if◌then◌else◌,
}
use ufuk_ai_agent.Prelude.Int.{ℤ, pos, ◌+ℤ◌, ◌-ℤ◌, ◌≤ℤ◌, int_laws}
use ufuk_ai_agent.Errors.{Outcome, ok, raise, crash, with_hint}
use ufuk_ai_agent.Models.{UsageEvent}
use ufuk_ai_agent.Tiers.{TierView}
use ufuk_ai_agent.Redis.{Redis, Key, IsLawful, value_at}
use ufuk_ai_agent.Redis.Memory.{Key-discrete}
use ufuk_ai_agent.Ledger.{ensure_ledger_synced, window_start, release}
use ufuk_ai_agent.Ledger.Laws.{
  reserve-Reserves, consume-Consumes, value_at-release, ensure_ledger_synced_lem, Reserves,
  Consumes, get-release_ne,
}
use ufuk_ai_agent.Subscriptions.{ActiveSubscription, period_key, quota_hint}
use ufuk_ai_agent.Gateway.World.{World, Request, Draw}
use ufuk_ai_agent.Gateway.Reserve.{
  Ticket, ticket, exceeds, reserved_event, ledger_ttl, reserve_window, reserve_credits, reserve,
}

module _ (R : Redis) (L : IsLawful R) (a : ActiveSubscription) (user : ℕ) (d : Draw) where
  abbrev period : Key
  period = Key.credits user (period_key a)

  abbrev window : Key
  window = Key.budget user (window_start a.plan.budget_window_seconds d.window_now)

  -- `store` is the store whose period counter already holds `amount`.
  abbrev Windowed : (s : R.Store) → ℕ → Outcome (Unit {0}) × R.Store → Type 0
  Windowed s amount (Outcome.ok _, s') =
      (value_at R s' period ≡ value_at R s period)
      × ((j : Key) → j ≢ period → j ≢ window → value_at R s' j ≡ value_at R s j)
  Windowed s amount (Outcome.raise _, s') =
      (value_at R s' period ≡ value_at R s period -ℤ pos amount)
      × ((j : Key) → j ≢ period → value_at R s' j ≡ value_at R s j)
  Windowed s amount (Outcome.crash, s') = ⊥

  not_window : period ≢ window
  not_window e = cc

  same_value :
      (s s' : R.Store) (k : Key) → R.get s' k ≡ R.get s k → value_at R s' k ≡ value_at R s k
  same_value s s' k e = rw e

  kept :
      (s s' : R.Store) (amount : ℕ) (j : Key)
      → value_at R s' window ≡ value_at R s window
      → (j ≢ window → R.get s' j ≡ R.get s j)
      → j ≢ period
      → value_at R (release R s' period amount) j ≡ value_at R s j
  kept s s' amount j own other p =
      same_value s' _ j (get-release_ne R L s' period j amount p)
      ∙ elim (Key-discrete j window) [ yes e ↦ rw e own | no n ↦ same_value s s' j (other n) ]

  -- The refusal of the window, with the period's credits given back.
  windowed :
      (s : R.Store) (amount limit : ℕ) (r : Outcome (Unit {0}) × R.Store)
      → Consumes R L s window amount limit (a.plan.budget_window_seconds + 5) r
      → Windowed s amount (elim r.0 [
        | ok _ ↦ (ok tt, r.1)
        | raise e ↦
            (raise (with_hint (quota_hint a.plan a.period_end) e), release R r.1 period amount)
        | crash ↦ (crash, r.1)
      ])
  windowed s amount limit (Outcome.ok _, s') h =
      (same_value s s' period (h.3 period not_window), λ j p w. same_value s s' j (h.3 j w))
  windowed s amount limit (Outcome.raise _, s') h = (
    value_at-release R L s' period amount
        ∙ ap (λ v. v -ℤ pos amount) (same_value s s' period (h.3 period not_window)),
    λ j p. kept s s' amount j h.1 (h.3 j) p,
  )
  windowed s amount limit (Outcome.crash, s') h = absurd h

  reserve_window-Windowed :
      (s : R.Store) (amount : ℕ) → Windowed s amount (reserve_window R s a user amount d)
  unfolding reserve_window period_key quota_hint
  reserve_window-Windowed s amount = elim (Option-cases a.plan.max_credits_per_window) [
    | inl unlimited ↦ rw unlimited (refl, λ j p w. refl)
    | inr (limit, e) ↦
        rw e (windowed s amount limit _ (consume-Consumes R L s user amount limit _ d.window_now))
  ]

  -- What `reserve_credits` does, where the period's counter stands at `base`.
  abbrev Credited :
      (s : R.Store) (events : List UsageEvent) → ℕ → Outcome (Unit {0}) × R.Store → Type 0
  Credited s events amount (Outcome.ok _, s') =
      let base =
        (ensure_ledger_synced R s events user (period_key a) a.period_start a.period_end
          (ledger_ttl a d)).0 in
      (value_at R s' period ≡ base +ℤ pos amount)
      × (base +ℤ pos amount ≤ℤ pos a.plan.monthly_credit_limit)
      × ((j : Key) → j ≢ period → j ≢ window → value_at R s' j ≡ value_at R s j)
  Credited s events amount (Outcome.raise _, s') =
      let base =
        (ensure_ledger_synced R s events user (period_key a) a.period_start a.period_end
          (ledger_ttl a d)).0 in
      (value_at R s' period ≡ base) × ((j : Key) → j ≢ period → value_at R s' j ≡ value_at R s j)
  Credited s events amount (Outcome.crash, s') = ⊥

  undone : (v w x : ℤ) (amount : ℕ) → w ≡ v +ℤ pos amount → x ≡ w -ℤ pos amount → x ≡ v
  undone v w x amount e f = rw (f, e) (omega int_laws)

  -- The window stage after a reservation that fitted.
  Credited-after :
      (s s₁ : R.Store) (events : List UsageEvent) (amount : ℕ) (r : Outcome (Unit {0}) × R.Store)
      → let base =
          (ensure_ledger_synced R s events user
            (period_key a)
            a.period_start
            a.period_end
            (ledger_ttl a d)).0 in
        (value_at R s₁ period ≡ base +ℤ pos amount)
        → (base +ℤ pos amount ≤ℤ pos a.plan.monthly_credit_limit)
        → ((j : Key) → j ≢ period → value_at R s₁ j ≡ value_at R s j)
        → Windowed s₁ amount r
        → Credited s events amount r
  Credited-after s s₁ events amount (Outcome.ok _, s') e b o h =
      (h.0 ∙ e, b, λ j p w. h.1 j p w ∙ o j p)
  Credited-after s s₁ events amount (Outcome.raise _, s') e b o h =
      (undone _ _ _ amount e h.0, λ j p. h.1 j p ∙ o j p)
  Credited-after s s₁ events amount (Outcome.crash, s') e b o h = absurd h

  -- The period's reservation, and the window stage after it.
  credited :
      (s synced : R.Store) (events : List UsageEvent) (amount : ℕ)
      (r : Outcome (Unit {0}) × R.Store)
      → value_at R synced period
        ≡ (ensure_ledger_synced R s events user
            (period_key a)
            a.period_start
            a.period_end
            (ledger_ttl a d)).0
      → ((j : Key) → j ≢ period → R.get synced j ≡ R.get s j)
      → Reserves R L synced period amount a.plan.monthly_credit_limit r
      → Credited s events amount (elim r.0 [
        | ok _ ↦ reserve_window R r.1 a user amount d
        | raise e ↦ (raise (with_hint (quota_hint a.plan a.period_end) e), r.1)
        | crash ↦ (crash, r.1)
      ])
  credited s synced events amount (Outcome.ok _, s') base others h =
      Credited-after s s' events amount _ (h.1 ∙ ap (λ v. v +ℤ pos amount) base) (rw⁻¹ base h.0)
        (λ j p. same_value synced s' j (h.2 j p) ∙ same_value s synced j (others j p))
        (reserve_window-Windowed s' amount)
  credited s synced events amount (Outcome.raise _, s') base others h =
      (h.1 ∙ base, λ j p. same_value synced s' j (h.2 j p) ∙ same_value s synced j (others j p))
  credited s synced events amount (Outcome.crash, s') base others h = absurd h

  reserve_credits-Credited :
      (s : R.Store) (events : List UsageEvent) (amount : ℕ)
      → 0 < ledger_ttl a d
      → Credited s events amount (reserve_credits R s events a user amount d)
  unfolding reserve_credits period_key quota_hint
  reserve_credits-Credited s events amount positive =
      let lem =
        ensure_ledger_synced_lem R L s events user (period_key a) a.period_start a.period_end
          (ledger_ttl a d) positive in
      credited s _ events amount _ (rw lem.0 refl) lem.2
        (reserve-Reserves R L _ period amount a.plan.monthly_credit_limit)

module _ (R : Redis) (L : IsLawful R) (encoder : Option (String → ℕ)) (q : Request)
    (a : ActiveSubscription) (tier : TierView) (cap : ℕ) (d : Draw) where
  -- The period's counter as `ensure_ledger_synced` finds or rebuilds it.
  abbrev pub synced_credits : World R → ℤ
  synced_credits w =
      (ensure_ledger_synced R w.store w.events q.user (period_key a) a.period_start a.period_end
        (ledger_ttl a d)).0

  -- What `reserve` did, by how it ended.
  abbrev pub Traces : (w : World R) → Outcome Ticket × World R → Type 0
  Traces w (Outcome.ok t, w') =
      (t ≡ ticket encoder q tier cap d)
      × (exceeds t.amount a.plan.max_credits_per_request ≡ false)
      × (w'.events ≡ w.events ++ reserved_event q tier t d ∷ [])
      × (value_at R w'.store (Key.credits q.user (period_key a)) ≡ synced_credits w +ℤ pos t.amount)
      × (synced_credits w +ℤ pos t.amount ≤ℤ pos a.plan.monthly_credit_limit)
      × ((j : Key)
          → j ≢ Key.credits q.user (period_key a)
          → j ≢ Key.budget q.user (window_start a.plan.budget_window_seconds d.window_now)
          → value_at R w'.store j ≡ value_at R w.store j)
  Traces w (Outcome.raise _, w') =
      (w'.events ≡ w.events)
      × ((j : Key)
          → j ≢ Key.credits q.user (period_key a)
          → value_at R w'.store j ≡ value_at R w.store j)
      × ((w'.store ≡ w.store)
          ⊎ (value_at R w'.store (Key.credits q.user (period_key a)) ≡ synced_credits w))
  Traces w (Outcome.crash, w') =
      (d.insert_fails ≡ true)
      × (w'.events ≡ w.events)
      × (value_at R w'.store (Key.credits q.user (period_key a))
          ≡ synced_credits w +ℤ pos (ticket encoder q tier cap d).amount)
      × ((j : Key)
          → j ≢ Key.credits q.user (period_key a)
          → j ≢ Key.budget q.user (window_start a.plan.budget_window_seconds d.window_now)
          → value_at R w'.store j ≡ value_at R w.store j)

  -- The insert of the event, after both ledgers.
  inserted :
      (w : World R) (r : Outcome (Unit {0}) × R.Store)
      → 0 < ledger_ttl a d
      → exceeds (ticket encoder q tier cap d).amount a.plan.max_credits_per_request ≡ false
      → Credited R L a q.user d w.store w.events (ticket encoder q tier cap d).amount r
      → let t = ticket encoder q tier cap d in
        Traces w (elim r.0 [
          | ok _ ↦ if d.insert_fails then (crash, record w { store = r.1 }) else (
            ok t,
            record w { store = r.1; events = w.events ++ reserved_event q tier t d ∷ [] },
          )
          | raise e ↦ (raise e, record w { store = r.1 })
          | crash ↦ (crash, record w { store = r.1 })
        ])
  inserted w (Outcome.ok _, s) positive under h = elim (Bool-cases d.insert_fails) [
    | inl fails ↦ simp fails (refl, refl, h.0, h.2)
    | inr works ↦ simp works (refl, under, refl, h.0, h.1, h.2)
  ]
  inserted w (Outcome.raise _, s) positive under h = (refl, h.1, inr h.0)
  inserted w (Outcome.crash, s) positive under h = absurd h

  -- With a positive time to live for the ledger key, `reserve` ends in one of three ways. A
  -- ticket: the amount is within the per-request cap, the reserved row is appended, and the synced
  -- counter has gained the amount and stays within the plan's limit. A raised error: the events
  -- and every counter but the period's have their old values, and the store is untouched or the
  -- period's counter is the synced one. A crash: the insert failed, no row was added, and the
  -- period's counter keeps the amount.
  pub reserve-Traces :
      (w : World R) → 0 < ledger_ttl a d → Traces w (reserve R encoder q a tier cap d w)
  unfolding reserve quota_hint
  reserve-Traces w positive =
      let t = ticket encoder q tier cap d in
      elim (Bool-cases (exceeds t.amount a.plan.max_credits_per_request)) [
        | inl over ↦ rw over (refl, λ j p. refl, inl refl)
        | inr under ↦ rw under (
            inserted w _ positive under
              (reserve_credits-Credited R L a q.user d w.store w.events t.amount positive))
      ]

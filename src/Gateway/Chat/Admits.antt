-- ===== src/Gateway/Chat/Admits.antt =====
-- `_reserve` as `chat_completions` calls it: what an admitted request holds and what a refused one
-- leaves.
use text.Mathlib.Text.{◌==◌ as str_eq}
use ufuk_ai_agent.Prelude.{
  ℕ, ◌<◌, ◌≡◌, ◌≢◌, refl, sym, ap, subst, ◌∙◌, inl, inr, ◌⊎◌, Bool, true, false, Option, none, some,
  [], ◌∷◌, ◌++◌, any, min, or_default,
}
use ufuk_ai_agent.Prelude.Int.{ℤ, pos, ◌+ℤ◌, ◌≤ℤ◌, int_laws}
use ufuk_ai_agent.Errors.{ApiError, Outcome, ok, raise, crash}
use ufuk_ai_agent.Tiers.{TierView}
use ufuk_ai_agent.Redis.{Redis, Key, IsLawful, value_at}
use ufuk_ai_agent.Redis.Memory.{Key-discrete}
use ufuk_ai_agent.Ledger.{period_total}
use ufuk_ai_agent.Ledger.Laws.{ensure_ledger_synced_lem}
use ufuk_ai_agent.Limits.Guard.{release_slot}
use ufuk_ai_agent.Subscriptions.{ActiveSubscription, period_key}
use ufuk_ai_agent.Gateway.World.{World}
use ufuk_ai_agent.Gateway.Reserve.{Ticket, ticket, reserved_event, ledger_ttl}
use ufuk_ai_agent.Gateway.Reserve.Traces.{Traces, reserve-Traces, synced_credits}
use ufuk_ai_agent.Gateway.Finalize.Ends.{one_if, release_slot_count}
use ufuk_ai_agent.Gateway.Finalize.Once.{get-release_slot_ne}
use ufuk_ai_agent.Gateway.Chat.{Server, Setup, Input, Times, Admitted, reserve_or_let_go, let_go}
use ufuk_ai_agent.Gateway.Chat.Admission.{is_charge, Quiet, Slotted}
use ufuk_ai_agent.Gateway.Chat.Slot.{same_value}

module _ {R : Redis} (L : IsLawful R) where
  -- The period's counter as a sync finds or rebuilds it.
  abbrev pub synced_base : Server R → ActiveSubscription → ℕ → ℤ
  synced_base u a user =
      or_default (R.get u.world.store (Key.credits user (period_key a)))
        (pos (period_total u.world.events user a.period_start a.period_end))

  -- What the whole admission did, by how it ended.
  abbrev pub Admits : (q : Input) (d : Times) → Server R → Outcome Admitted × Server R → Type 0
  Admits q d u (Outcome.ok h, v) =
      (q.tier ≡ some h.tier)
      × (any (str_eq h.tier.alias) h.active.plan.allowed_tier_aliases ≡ true)
      × (h.tier.is_internal ≡ false)
      × (v.world.events ≡ u.world.events ++ reserved_event q.request h.tier h.ticket d.draw ∷ [])
      × (h.ticket.event_id ≡ d.draw.event_id)
      × (value_at R v.world.store (Key.credits q.request.user (period_key h.active))
          ≡ synced_base u h.active q.request.user +ℤ pos h.ticket.amount)
      × (synced_base u h.active q.request.user +ℤ pos h.ticket.amount
          ≤ℤ pos h.active.plan.monthly_credit_limit)
      × (value_at R v.world.store (Key.inflight q.request.user)
          ≡ value_at R u.world.store (Key.inflight q.request.user) +ℤ one_if h.held)
      × ((user period : ℕ)
          → Key.credits user period ≢ Key.credits q.request.user (period_key h.active)
          → value_at R v.world.store (Key.credits user period)
            ≡ value_at R u.world.store (Key.credits user period))
  Admits q d u (Outcome.raise _, v) =
      (v.world.events ≡ u.world.events)
      × (value_at R v.world.store (Key.inflight q.request.user)
          ≡ value_at R u.world.store (Key.inflight q.request.user))
      × ((j : Key)
          → is_charge j ≡ true
          → (value_at R v.world.store j ≡ value_at R u.world.store j)
            ⊎ (R.get u.world.store j ≡ none))
  Admits q d u (Outcome.crash, v) =
      (d.draw.insert_fails ≡ true)
      × (v.world.events ≡ u.world.events)
      × (value_at R v.world.store (Key.inflight q.request.user)
          ≡ value_at R u.world.store (Key.inflight q.request.user))

  -- A slot that is given back.
  let_go_count :
      (user n : ℕ) (held : Bool) (u : Server R) (s : R.Store)
      → value_at R u.world.store (Key.inflight user) ≡ pos n
      → value_at R s (Key.inflight user)
        ≡ value_at R u.world.store (Key.inflight user) +ℤ one_if held
      → value_at R (release_slot R s user held) (Key.inflight user)
        ≡ value_at R u.world.store (Key.inflight user)
  let_go_count user n held u s e h =
      release_slot_count L s user n held (rw h (ap (λ x. x +ℤ one_if held) e)) ∙ sym e

  synced_credits-base :
      (q : Input) (d : Times) (a : ActiveSubscription) (tier : TierView) (cap : ℕ) (c : Setup)
      (u v : Server R)
      → 0 < ledger_ttl a d.draw
      → v.world.events ≡ u.world.events
      → R.get v.world.store (Key.credits q.request.user (period_key a))
        ≡ R.get u.world.store (Key.credits q.request.user (period_key a))
      → synced_credits R L c.encoder q.request a tier cap d.draw v.world
        ≡ synced_base u a q.request.user
  synced_credits-base q d a tier cap c u v positive e g =
      (ensure_ledger_synced_lem R L v.world.store v.world.events q.request.user (period_key a)
        a.period_start a.period_end (ledger_ttl a d.draw) positive).1
      ∙ rw (e, g)

  pub kept_or_missing :
      (o : Option ℤ) (x y total : ℤ)
      → x ≡ or_default o total
      → y ≡ or_default o (pos 0)
      → (x ≡ y) ⊎ (o ≡ none)
  kept_or_missing none x y total h k = inr refl
  kept_or_missing (some v) x y total h k = inl (h ∙ sym k)

  credits_not_inflight : (user p w : ℕ) → Key.credits user p ≢ Key.inflight w
  credits_not_inflight user p w e = cc

  credits_not_budget : (user p w z : ℕ) → Key.credits user p ≢ Key.budget w z
  credits_not_budget user p w z e = cc

  inflight_not_credits : (user w z : ℕ) → Key.inflight user ≢ Key.credits w z
  inflight_not_credits user w z e = cc

  inflight_not_budget : (user w z : ℕ) → Key.inflight user ≢ Key.budget w z
  inflight_not_budget user w z e = cc

  event_of_ticket :
      (c : Setup) (q : Input) (tier : TierView) (cap : ℕ) (d : Times)
      → (ticket c.encoder q.request tier cap d.draw).event_id ≡ d.draw.event_id
  unfolding ticket
  event_of_ticket c q tier cap d = refl

  module _ (c : Setup) (q : Input) (d : Times) (a : ActiveSubscription) (tier : TierView)
      (held : Bool) (n : ℕ) (u v : Server R) (found : q.tier ≡ some tier)
      (allowed : any (str_eq tier.alias) a.plan.allowed_tier_aliases ≡ true)
      (outward : tier.is_internal ≡ false) (positive : 0 < ledger_ttl a d.draw)
      (s : Slotted L q.request.user held u v)
      (count : value_at R u.world.store (Key.inflight q.request.user) ≡ pos n) where
    abbrev cap : ℕ
    cap = min tier.max_output_tokens a.plan.max_output_tokens_per_request

    abbrev credits : Key
    credits = Key.credits q.request.user (period_key a)

    -- A charge that a refused reservation leaves, wherever it was.
    refused_charge :
        (w : World R)
        → ((j : Key) → j ≢ credits → value_at R w.store j ≡ value_at R v.world.store j)
        → ((w.store ≡ v.world.store)
            ⊎ (value_at R w.store credits
                ≡ synced_credits R L c.encoder q.request a tier cap d.draw v.world))
        → (j : Key) → is_charge j ≡ true
        → j ≢ Key.inflight q.request.user
        → (value_at R w.store j ≡ value_at R u.world.store j) ⊎ (R.get u.world.store j ≡ none)
    refused_charge w others own j charge n' =
        let same = same_value L u.world.store v.world.store j (s.charges j charge n') in
        elim (Key-discrete j credits) [
          | no other ↦ inl (others j other ∙ same)
          | yes e ↦ elim own [
            | inl store ↦ inl (ap (λ x. value_at R x j) store ∙ same)
            | inr value ↦ rw e (
                kept_or_missing (R.get u.world.store credits) (value_at R w.store credits) _ _
                  (value
                    ∙ synced_credits-base q d a tier cap c u v positive s.events
                        (s.charges credits refl (credits_not_inflight _ _ _)))
                  refl)
          ]
        ]

    -- The three ends of `reserve`, with the slot.
    reserved_end :
        (r : Outcome Ticket × World R)
        → Traces R L c.encoder q.request a tier cap d.draw v.world r
        → Admits q d u (elim r.0 [
          | ok t ↦ (
            ok (record { active = a; tier = tier; ticket = t; held = held }),
            record v { world = r.1 },
          )
          | raise e ↦ (raise e, record v { world = let_go q.request.user held r.1 })
          | crash ↦ (crash, record v { world = let_go q.request.user held r.1 })
        ])
    reserved_end (Outcome.ok t, w) h =
        let base =
          synced_credits-base q d a tier cap c u v positive s.events
            (s.charges credits refl (credits_not_inflight _ _ _)) in
        (
          found,
          allowed,
          outward,
          h.2 ∙ ap (λ events. events ++ reserved_event q.request tier t d.draw ∷ []) s.events,
          ap (λ (x : Ticket). x.event_id) h.0 ∙ event_of_ticket c q tier cap d,
          h.3 ∙ ap (λ x. x +ℤ pos t.amount) base,
          subst (λ x. x +ℤ pos t.amount ≤ℤ pos a.plan.monthly_credit_limit) base h.4,
          h.5 (Key.inflight q.request.user) (inflight_not_credits _ _ _) (inflight_not_budget _ _ _)
              ∙ s.count,
          λ user period other.
              h.5 (Key.credits user period) other (credits_not_budget _ _ _ _)
              ∙ same_value L u.world.store v.world.store _
                  (s.charges (Key.credits user period) refl (credits_not_inflight _ _ _)),
        )
    reserved_end (Outcome.raise e, w) h = (
      h.0 ∙ s.events,
      let_go_count q.request.user n held u w.store count
          (h.1 (Key.inflight q.request.user) (inflight_not_credits _ _ _) ∙ s.count),
      λ j charge. elim (Key-discrete j (Key.inflight q.request.user)) [
        | yes e' ↦ inl (
            rw e' (
              let_go_count q.request.user n held u w.store count
                (h.1 (Key.inflight q.request.user) (inflight_not_credits _ _ _) ∙ s.count)))
        | no n' ↦
            rw (same_value L w.store _ j (get-release_slot_ne R L w.store q.request.user held j n'))
              (refused_charge w h.1 h.2 j charge n')
      ],
    )
    reserved_end (Outcome.crash, w) h = (
      h.0,
      h.1 ∙ s.events,
      let_go_count q.request.user n held u w.store count (
          h.3 (Key.inflight q.request.user) (inflight_not_credits _ _ _) (inflight_not_budget _ _ _)
          ∙ s.count),
    )

    pub reserve_or_let_go-Admits : Admits q d u (reserve_or_let_go c q d a tier held v)
    unfolding reserve_or_let_go
    reserve_or_let_go-Admits =
        reserved_end _ (reserve-Traces R L c.encoder q.request a tier cap d.draw v.world positive)

  -- An end before the slot, which only quiet steps came to.
  pub Quiet-raise :
      (q : Input) (d : Times) (u v : Server R) (e : ApiError)
      → Quiet L u v
      → Admits q d u (raise e, v)
  Quiet-raise q d u v e h = (
    h.events,
    same_value L u.world.store v.world.store _ (h.charges (Key.inflight q.request.user) refl),
    λ j charge. inl (same_value L u.world.store v.world.store j (h.charges j charge)),
  )

  pub Slotted-raise :
      (q : Input) (d : Times) (u v : Server R) (e : ApiError)
      → Slotted L q.request.user false u v
      → Admits q d u (raise e, v)
  Slotted-raise q d u v e h = (
    h.events,
    h.count ∙ omega int_laws,
    λ j charge. elim (Key-discrete j (Key.inflight q.request.user)) [
      | yes p ↦ inl (rw p (h.count ∙ omega int_laws))
      | no n ↦ inl (same_value L u.world.store v.world.store j (h.charges j charge n))
    ],
  )

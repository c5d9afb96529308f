-- ===== src/Gateway/Finalize/Once.antt =====
-- The ledger and the tables after `_finalize_event` of routers/gateway.py.
use ufuk_ai_agent.Prelude.{
  ℕ, ◌≡◌, ◌≢◌, refl, ◌∙◌, inl, inr, Bool-cases, Bool, true, false, arith, if◌then◌else◌,
}
use ufuk_ai_agent.Prelude.Int.{ℤ, pos, negsuc, ◌+ℤ◌, ◌-ℤ◌, ltb_ℤ, int_laws}
use ufuk_ai_agent.Models.{UsageStatus}
use ufuk_ai_agent.Tiers.{TierView}
use ufuk_ai_agent.Redis.{Redis, Key, IsLawful, value_at}
use ufuk_ai_agent.Ledger.Laws.{value_at-adjust, value_at-release}
use ufuk_ai_agent.Limits.Guard.{release_slot, concurrency_slot_ttl_seconds}
use ufuk_ai_agent.Subscriptions.{ActiveSubscription, period_key}
use ufuk_ai_agent.Usage.{is_settled, is_reserved, count_open, settle_usage_event}
use ufuk_ai_agent.Usage.Settle.{settle_once}
use ufuk_ai_agent.Gateway.Response.{Reading}
use ufuk_ai_agent.Gateway.World.{World, Request}
use ufuk_ai_agent.Gateway.Reserve.{Ticket}
use ufuk_ai_agent.Gateway.Finalize.{actual_cost, settlement, correct_ledger, finalize_event}

module _ (R : Redis) (L : IsLawful R) where
  pub get-release_slot_ne :
      (s : R.Store) (user : ℕ) (held : Bool) (j : Key)
      → j ≢ Key.inflight user
      → R.get (release_slot R s user held) j ≡ R.get s j
  unfolding release_slot
  get-release_slot_ne s user false j h = refl
  get-release_slot_ne s user true j h =
      let key = Key.inflight user in
      elim (Bool-cases (ltb_ℤ (R.incrby s key (negsuc 0)).0 (pos 0))) [
        | inl negative ↦ rw negative (
            L.get-set_ne _ key j (pos 0) concurrency_slot_ttl_seconds (omega arith) h
            ∙ L.get-incrby_ne s key j _ h)
        | inr fine ↦ rw fine (L.get-incrby_ne s key j _ h)
      ]

  -- What the credits of a request come to once it ended with `status`.
  abbrev pub charged : UsageStatus → ℕ → ℤ
  charged status actual = if is_settled status then pos actual else pos 0

  value_at-correct_ledger :
      (s : R.Store) (key : Key) (status : UsageStatus) (actual amount : ℕ)
      → value_at R (correct_ledger R s key true status actual amount) key
        ≡ value_at R s key +ℤ (charged status actual -ℤ pos amount)
  unfolding correct_ledger
  value_at-correct_ledger s key status actual amount = elim (Bool-cases (is_settled status)) [
    | inl charges ↦ rw charges (value_at-adjust R L s key _)
    | inr frees ↦ rw frees (value_at-release R L s key amount ∙ omega int_laws)
  ]

  credits_not_inflight : (user period : ℕ) → Key.credits user period ≢ Key.inflight user
  credits_not_inflight user period e = cc

  pub finalize_event_charges :
      (q : Request) (a : ActiveSubscription) (tier : TierView) (t : Ticket) (r : Reading)
      (status : UsageStatus) (latency_ms : ℕ) (held : Bool) (w : World R)
      → count_open t.event_id w.events ≡ 1
      → let (held', w') = finalize_event R q a tier t r status latency_ms held w in
        (held' ≡ false)
        × (value_at R w'.store (Key.credits q.user (period_key a))
            ≡ value_at R w.store (Key.credits q.user (period_key a))
              +ℤ (charged status (actual_cost tier r) -ℤ pos t.amount))
  unfolding finalize_event settle_usage_event settlement
  finalize_event_charges q a tier t r status latency_ms held w won = (
    refl,
    rw
        (
          get-release_slot_ne _ q.user held (Key.credits q.user (period_key a))
              (credits_not_inflight _ _),
          won,
        )
        (value_at-correct_ledger w.store _ status _ t.amount),
  )

  -- After a request's end with a status other than reserved, a second end for the same event on
  -- the state it left, with any reading and status, changes neither Redis nor the tables: nothing
  -- is charged twice and no slot is released twice.
  pub finalize_event_twice :
      (q : Request) (a : ActiveSubscription) (tier : TierView) (t : Ticket) (r r' : Reading)
      (status status' : UsageStatus) (latency_ms latency_ms' : ℕ) (held : Bool) (w : World R)
      → is_reserved status ≡ false
      → let (held', w') = finalize_event R q a tier t r status latency_ms held w in
        finalize_event R q a tier t r' status' latency_ms' held' w' ≡ (false, w')
  unfolding finalize_event settlement correct_ledger release_slot
  finalize_event_twice q a tier t r r' status status' latency_ms latency_ms' held w terminal =
      rw
        (settle_once w.events w.rollups (settlement q tier t.event_id r status latency_ms)
          (settlement q tier t.event_id r' status' latency_ms') refl terminal)
        refl

-- ===== src/Gateway/Finalize/Ends.antt =====
-- The counters and the event after `_finalize_event` of routers/gateway.py, the slot included.
use ufuk_ai_agent.Prelude.{ℕ, ◌≡◌, ◌≢◌, refl, ◌∙◌, inl, inr, Bool-cases, Bool, true, false, arith}
use ufuk_ai_agent.Prelude.Int.{ℤ, pos, ◌+ℤ◌, ◌-ℤ◌, max_ℤ, int_laws}
use ufuk_ai_agent.Models.{UsageStatus}
use ufuk_ai_agent.Tiers.{TierView}
use ufuk_ai_agent.Redis.{Redis, Key, IsLawful, value_at}
use ufuk_ai_agent.Ledger.Laws.{get-adjust_ne, get-release_ne}
use ufuk_ai_agent.Limits.Guard.{release_slot}
use ufuk_ai_agent.Limits.Guard.Slots.{release_slot_lem}
use ufuk_ai_agent.Subscriptions.{ActiveSubscription, period_key}
use ufuk_ai_agent.Usage.{is_settled, is_reserved, count_open, settle_usage_event}
use ufuk_ai_agent.Usage.Settle.{count_open-update_open}
use ufuk_ai_agent.Gateway.Response.{Reading}
use ufuk_ai_agent.Gateway.World.{World, Request}
use ufuk_ai_agent.Gateway.Reserve.{Ticket}
use ufuk_ai_agent.Gateway.Finalize.{actual_cost, settlement, correct_ledger, finalize_event}
use ufuk_ai_agent.Gateway.Finalize.Once.{charged, get-release_slot_ne, finalize_event_charges}

abbrev pub one_if : Bool → ℤ
one_if true = pos 1
one_if false = pos 0

module _ {R : Redis} (L : IsLawful R) where
  released_none : (s : R.Store) (user : ℕ) → release_slot R s user false ≡ s
  unfolding release_slot
  released_none s user = refl

  counted : (n : ℕ) → max_ℤ (pos n +ℤ pos 1 -ℤ pos 1) (pos 0) ≡ pos n
  unfolding ◌+ℤ◌ ◌-ℤ◌
  counted n = ground arith

  -- A slot that is given back.
  pub release_slot_count :
      (s : R.Store) (user n : ℕ) (held : Bool)
      → value_at R s (Key.inflight user) ≡ pos n +ℤ one_if held
      → value_at R (release_slot R s user held) (Key.inflight user) ≡ pos n
  release_slot_count s user n false e = rw (released_none s user, e) (omega int_laws)
  release_slot_count s user n true e = release_slot_lem R L user s ∙ rw e (counted n)

  get-correct_ledger_ne :
      (s : R.Store) (key j : Key) (won : Bool) (status : UsageStatus) (actual amount : ℕ)
      → j ≢ key
      → R.get (correct_ledger R s key won status actual amount) j ≡ R.get s j
  unfolding correct_ledger
  get-correct_ledger_ne s key j false status actual amount h = refl
  get-correct_ledger_ne s key j true status actual amount h =
      elim (Bool-cases (is_settled status)) [
        | inl charges ↦ rw charges (get-adjust_ne R L s key j _ h)
        | inr frees ↦ rw frees (get-release_ne R L s key j amount h)
      ]

  inflight_not_credits : (user w z : ℕ) → Key.inflight user ≢ Key.credits w z
  inflight_not_credits user w z e = cc

  -- What a request's end leaves, where `delta` is its correction of the period's credits.
  pub record Ended (q : Request) (a : ActiveSubscription) (t : Ticket) (n : ℕ) (delta : ℤ)
      (w w' : World R) : Type 0 where
    pub closed : count_open t.event_id w'.events ≡ 0
    pub credits :
        value_at R w'.store (Key.credits q.user (period_key a))
        ≡ value_at R w.store (Key.credits q.user (period_key a)) +ℤ delta
    pub slots : value_at R w'.store (Key.inflight q.user) ≡ pos n
    pub others :
        (j : Key)
        → j ≢ Key.credits q.user (period_key a)
        → j ≢ Key.inflight q.user
        → R.get w'.store j ≡ R.get w.store j

  module _ (q : Request) (a : ActiveSubscription) (tier : TierView) (t : Ticket) (r : Reading)
      (status : UsageStatus) (latency_ms n : ℕ) (held : Bool) (w : World R)
      (terminal : is_reserved status ≡ false) (open_event : count_open t.event_id w.events ≡ 1)
      (count : value_at R w.store (Key.inflight q.user) ≡ pos n +ℤ one_if held) where
    abbrev w' : World R
    w' = (finalize_event R q a tier t r status latency_ms held w).1

    finalize_event_closes : count_open t.event_id w'.events ≡ 0
    unfolding finalize_event settlement settle_usage_event
    finalize_event_closes =
        count_open-update_open (settlement q tier t.event_id r status latency_ms) w.events terminal

    finalize_event_slots : value_at R w'.store (Key.inflight q.user) ≡ pos n
    unfolding finalize_event
    finalize_event_slots = release_slot_count _ q.user n held (
        rw
          (get-correct_ledger_ne w.store (Key.credits q.user (period_key a)) (Key.inflight q.user) _
            status (actual_cost tier r) t.amount (inflight_not_credits _ _ _))
          count)

    finalize_event_others :
        (j : Key)
        → j ≢ Key.credits q.user (period_key a)
        → j ≢ Key.inflight q.user
        → R.get w'.store j ≡ R.get w.store j
    unfolding finalize_event
    finalize_event_others j h k =
        get-release_slot_ne R L _ q.user held j k
        ∙ get-correct_ledger_ne w.store (Key.credits q.user (period_key a)) j _ status
            (actual_cost tier r) t.amount h

    pub finalize_event-Ended :
        Ended q a t n (charged R L status (actual_cost tier r) -ℤ pos t.amount) w w'
    finalize_event-Ended = record {
      closed = finalize_event_closes;
      credits = (finalize_event_charges R L q a tier t r status latency_ms held w open_event).1;
      slots = finalize_event_slots;
      others = finalize_event_others;
    }

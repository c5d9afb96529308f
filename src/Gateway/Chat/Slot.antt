-- ===== src/Gateway/Chat/Slot.antt =====
-- `guard.acquire_slot` as `chat_completions` calls it, and the time its ledgers live.
use ufuk_ai_agent.Prelude.{
  ℕ, ◌+◌, ◌*◌, ◌<◌, ◌≤◌, ◌≡◌, ◌≢◌, refl, ap, ◌∙◌, Bool, false, Option, none, some, arith,
}
use ufuk_ai_agent.Prelude.Int.{ℤ, pos, ◌+ℤ◌, int_laws}
use ufuk_ai_agent.Errors.{Outcome, ok, raise, crash}
use ufuk_ai_agent.Models.{microseconds_per_day}
use ufuk_ai_agent.Redis.{Redis, Key, IsLawful, value_at}
use ufuk_ai_agent.Limits.Guard.{acquire_slot}
use ufuk_ai_agent.Limits.Guard.Slots.{Acquires, acquire_slot-Acquires}
use ufuk_ai_agent.Subscriptions.{ActiveSubscription}
use ufuk_ai_agent.Gateway.World.{Draw}
use ufuk_ai_agent.Gateway.Reserve.{ledger_ttl}
use ufuk_ai_agent.Gateway.Finalize.Ends.{one_if}
use ufuk_ai_agent.Gateway.Chat.{Server, Input, hold_slot, with_store}
use ufuk_ai_agent.Gateway.Chat.Admission.{Quiet, Slotted, get-acquire_slot_ne}

-- A request that reserves within four days of its start finds a positive time to live.
pub ledger_ttl_positive :
    (a : ActiveSubscription) (d : Draw) (now : ℕ)
    → now < a.period_end
    → d.reserve_now ≤ now + 4 * microseconds_per_day
    → 0 < ledger_ttl a d
unfolding ledger_ttl
ledger_ttl_positive a d now h k = omega arith

module _ {R : Redis} (L : IsLawful R) where
  pub same_value :
      (s s' : R.Store) (k : Key) → R.get s' k ≡ R.get s k → value_at R s' k ≡ value_at R s k
  same_value s s' k e = rw e

  pub Slotted-before :
      (user : ℕ) (held : Bool) (u v w : Server R)
      → Quiet L u v
      → Slotted L user held v w
      → Slotted L user held u w
  Slotted-before user held u v w a b = record {
    events = b.events ∙ a.events;
    charges = λ j h n. b.charges j h n ∙ a.charges j h;
    count =
        b.count
        ∙ ap (λ x. x +ℤ one_if held)
            (same_value u.world.store v.world.store _ (a.charges (Key.inflight user) refl));
  }

  pub Slotted-after :
      (user : ℕ) (held : Bool) (u v w : Server R)
      → Slotted L user held u v
      → Quiet L v w
      → Slotted L user held u w
  Slotted-after user held u v w a b = record {
    events = b.events ∙ a.events;
    charges = λ j h n. b.charges j h ∙ a.charges j h n;
    count = same_value v.world.store w.world.store _ (b.charges (Key.inflight user) refl) ∙ a.count;
  }

  -- By how `acquire_slot` ended.
  abbrev pub Held : (user : ℕ) → Server R → Outcome Bool × Server R → Type 0
  Held user v (Outcome.ok held, v') = Slotted L user held v v'
  Held user v (Outcome.raise _, v') = Slotted L user false v v'
  Held user v (Outcome.crash, v') = ⊥

  held_count :
      (user : ℕ) (s : R.Store) (limit : Option ℕ) (r : Outcome Bool × R.Store)
      → Acquires R L user s limit r
      → value_at R r.1 (Key.inflight user)
        ≡ value_at R s (Key.inflight user)
          +ℤ (elim r.0 as (λ _. ℤ) [ ok held ↦ one_if held | raise _ ↦ pos 0 | crash ↦ pos 0 ])
  held_count user s none r h = rw h (omega int_laws)
  held_count user s (some limit) (Outcome.ok held, s') h = rw (h.0) h.1
  held_count user s (some limit) (Outcome.raise e, s') h = h.1 ∙ omega int_laws
  held_count user s (some limit) (Outcome.crash, s') h = absurd h

  no_crash :
      (user : ℕ) (s : R.Store) (limit : Option ℕ) (r : Outcome Bool × R.Store)
      → Acquires R L user s limit r
      → r.0 ≡ crash
      → ⊥
  no_crash user s none r h e = cc
  no_crash user s (some limit) (Outcome.ok held, s') h e = cc
  no_crash user s (some limit) (Outcome.raise x, s') h e = cc
  no_crash user s (some limit) (Outcome.crash, s') h e = absurd h

  pub hold_slot-Held :
      (q : Input) (a : ActiveSubscription) (v : Server R) → Held q.request.user v (hold_slot q a v)
  unfolding hold_slot
  hold_slot-Held q a v =
      go (acquire_slot R v.world.store q.request.user a.plan.max_concurrent_requests)
        (acquire_slot-Acquires R L q.request.user v.world.store a.plan.max_concurrent_requests)
        (λ j. get-acquire_slot_ne L v.world.store q.request.user a.plan.max_concurrent_requests j)
    where
      go :
          (r : Outcome Bool × R.Store)
          → Acquires R L q.request.user v.world.store a.plan.max_concurrent_requests r
          → ((j : Key) → j ≢ Key.inflight q.request.user → R.get r.1 j ≡ R.get v.world.store j)
          → Held q.request.user v (r.0, with_store r.1 v)
      go (Outcome.ok held, s') h others = record {
        events = refl;
        charges = λ j c n. others j n;
        count = held_count q.request.user v.world.store _ (ok held, s') h;
      }
      go (Outcome.raise e, s') h others = record {
        events = refl;
        charges = λ j c n. others j n;
        count = held_count q.request.user v.world.store _ (raise e, s') h;
      }
      go (Outcome.crash, s') h others =
          absurd (no_crash q.request.user v.world.store _ (crash, s') h refl)

-- ===== src/Gateway/Charges.antt =====
-- A request's credits from its reservation to its end.
use Prim.Native.String.{String}
use ufuk_ai_agent.Prelude.{
  ℕ, ◌+◌, ◌<◌, ◌≡◌, refl, subst, ◌∙◌, Bool, Option, List, [], ◌∷◌, ◌++◌, arith,
}
use ufuk_ai_agent.Prelude.Int.{ℤ, pos, ◌+ℤ◌, ◌-ℤ◌, int_laws}
use ufuk_ai_agent.Errors.{ok}
use ufuk_ai_agent.Models.{UsageEvent, UsageStatus, reserved}
use ufuk_ai_agent.Tiers.{TierView}
use ufuk_ai_agent.Redis.{Redis, Key, IsLawful, value_at}
use ufuk_ai_agent.Subscriptions.{ActiveSubscription, period_key}
use ufuk_ai_agent.Usage.{count_open}
use ufuk_ai_agent.Gateway.Response.{Reading}
use ufuk_ai_agent.Gateway.World.{World, Request, Draw}
use ufuk_ai_agent.Gateway.Reserve.{Ticket, ticket, reserved_event, ledger_ttl, reserve}
use ufuk_ai_agent.Gateway.Reserve.Traces.{synced_credits, Traces, reserve-Traces}
use ufuk_ai_agent.Gateway.Finalize.{actual_cost, finalize_event}
use ufuk_ai_agent.Gateway.Finalize.Once.{charged, finalize_event_charges}

pub count_open-append :
    (id : ℕ) (events : List UsageEvent) (e : UsageEvent)
    → e.id ≡ id
    → e.status ≡ reserved
    → count_open id (events ++ e ∷ []) ≡ count_open id events + 1
unfolding count_open
count_open-append id [] e same fresh = ground arith
count_open-append id (x ∷ events) e same fresh =
    ground (arith, count_open-append id events e same fresh)

pub total : (v x : ℤ) (c : ℤ) (n : ℕ) → v ≡ x +ℤ pos n → v +ℤ (c -ℤ pos n) ≡ x +ℤ c
total v x c n e = rw e (omega int_laws)

module _ (R : Redis) (L : IsLawful R) (encoder : Option (String → ℕ)) (q : Request)
    (a : ActiveSubscription) (tier : TierView) (cap : ℕ) (d : Draw) where
  opened :
      (w w' : World R) (t : Ticket)
      → Traces R L encoder q a tier cap d w (ok t, w')
      → count_open d.event_id w.events ≡ 0
      → count_open t.event_id w'.events ≡ 1
  unfolding ticket reserved_event
  opened w w' t h none_before =
      rw (h.2, h.0) (count_open-append d.event_id w.events _ refl refl ∙ rw none_before refl)

  -- If a reservation succeeded and its event's id was no open event before, the end of the request
  -- leaves the period's counter at what it was after the ledger's sync, plus the actual cost for a
  -- settled status and plus nothing for any other. The ledger key's time to live is assumed
  -- positive.
  pub reserve-finalize_event_charges :
      (w w' : World R) (t : Ticket) (r : Reading) (status : UsageStatus) (latency_ms : ℕ)
      (held : Bool)
      → 0 < ledger_ttl a d
      → count_open d.event_id w.events ≡ 0
      → reserve R encoder q a tier cap d w ≡ (ok t, w')
      → let (_, w'') = finalize_event R q a tier t r status latency_ms held w' in
        value_at R w''.store (Key.credits q.user (period_key a))
        ≡ synced_credits R L encoder q a tier cap d w +ℤ charged R L status (actual_cost tier r)
  reserve-finalize_event_charges w w' t r status latency_ms held positive unused e =
      let h : Traces R L encoder q a tier cap d w (ok t, w') =
        subst (λ x. Traces R L encoder q a tier cap d w x) e
          (reserve-Traces R L encoder q a tier cap d w positive) in
      (finalize_event_charges R L q a tier t r status latency_ms held w' (opened w w' t h unused)).1
      ∙ total _ _ (charged R L status (actual_cost tier r)) t.amount h.3

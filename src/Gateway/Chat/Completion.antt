-- ===== src/Gateway/Chat/Completion.antt =====
-- `chat_completions` from its first check to the request's end.
use text.Mathlib.Text.{◌==◌ as str_eq}
use ufuk_ai_agent.Prelude.{
  ℕ, ◌+◌, ◌*◌, ◌≤◌, ◌≡◌, ◌≢◌, refl, sym, ap, subst, ◌∙◌, inl, inr, ◌⊎◌, true, false, none, some,
  List, [], ◌∷◌, ◌++◌, any, or_default,
}
use ufuk_ai_agent.Prelude.Int.{ℤ, pos, ◌+ℤ◌, ◌-ℤ◌, int_laws}
use ufuk_ai_agent.Errors.{Outcome, ok}
use ufuk_ai_agent.Action.{>>=-post}
use ufuk_ai_agent.Models.{UsageEvent, microseconds_per_day}
use ufuk_ai_agent.Tiers.{TierView}
use ufuk_ai_agent.Redis.{Redis, Key, IsLawful, value_at}
use ufuk_ai_agent.Redis.Memory.{Key-discrete}
use ufuk_ai_agent.Subscriptions.{period_key}
use ufuk_ai_agent.Usage.{count_open}
use ufuk_ai_agent.Gateway.Charges.{count_open-append, total}
use ufuk_ai_agent.Gateway.World.{Request, Draw}
use ufuk_ai_agent.Gateway.Reserve.{Ticket, reserved_event}
use ufuk_ai_agent.Gateway.Response.{Reading}
use ufuk_ai_agent.Gateway.Finalize.{actual_cost}
use ufuk_ai_agent.Gateway.Finalize.Ends.{one_if}
use ufuk_ai_agent.Gateway.Chat.{
  Server, Setup, Input, Times, Admitted, Answer, admit, serve, reply_to, chat_completions,
}
use ufuk_ai_agent.Gateway.Chat.Admits.{Admits, synced_base, kept_or_missing}
use ufuk_ai_agent.Gateway.Chat.Active.{active_of, admit_active}
use ufuk_ai_agent.Gateway.Chat.Admit.{admit-Admits}
use ufuk_ai_agent.Gateway.Chat.Service.{Reads, Unanswerable, Serves, serve-Serves}

opened :
    (q : Request) (tier : TierView) (t : Ticket) (d : Draw) (events events' : List UsageEvent)
    → events' ≡ events ++ reserved_event q tier t d ∷ []
    → t.event_id ≡ d.event_id
    → count_open d.event_id events ≡ 0
    → count_open t.event_id events' ≡ 1
unfolding reserved_event
opened q tier t d events events' e same unused =
    rw (e, same) (count_open-append d.event_id events _ refl refl ∙ rw unused refl)

module _ {R : Redis} (L : IsLawful R) where
  abbrev pub slots : ℕ → Server R → ℤ
  slots user v = value_at R v.world.store (Key.inflight user)

  abbrev pub credits : ℕ → ℕ → Server R → ℤ
  credits user period v = value_at R v.world.store (Key.credits user period)

  -- How a request may end, where the user had `n` slots before it.
  abbrev pub Completes :
      (c : Setup) (q : Input) (d : Times) (n : ℕ) → Server R → Outcome Answer × Server R → Type 0
  Completes c q d n u (Outcome.ok answer, v) =
      (h : Admitted) × (w : Server R) × (r : Reading) × (admit c q d u ≡ (ok h, w))
      × (active_of c q d u ≡ some h.active)
      × Reads c q h answer r
      × (q.tier ≡ some h.tier)
      × (any (str_eq h.tier.alias) h.active.plan.allowed_tier_aliases ≡ true)
      × (h.tier.is_internal ≡ false)
      × (credits q.request.user (period_key h.active) v
          ≡ synced_base L u h.active q.request.user +ℤ pos (actual_cost h.tier r))
      × (slots q.request.user v ≡ pos n)
      × (count_open d.draw.event_id v.world.events ≡ 0)
  Completes c q d n u (Outcome.raise e, v) =
      (slots q.request.user v ≡ pos n)
      × (count_open d.draw.event_id v.world.events ≡ 0)
      × ((user period : ℕ)
          → (credits user period v ≡ credits user period u)
            ⊎ (R.get u.world.store (Key.credits user period) ≡ none))
  Completes c q d n u (Outcome.crash, v) =
      ((d.draw.insert_fails ≡ true)
        × (slots q.request.user v ≡ pos n)
        × (count_open d.draw.event_id v.world.events ≡ 0))
      ⊎ ((h : Admitted) × (w : Server R) × (admit c q d u ≡ (ok h, w))
          × (active_of c q d u ≡ some h.active)
          × Unanswerable c q h (reply_to c q h)
          × (credits q.request.user (period_key h.active) v
              ≡ synced_base L u h.active q.request.user +ℤ pos h.ticket.amount)
          × (slots q.request.user v ≡ pos n +ℤ one_if h.held)
          × (count_open d.draw.event_id v.world.events ≡ 1))

  given_back : (v x : ℤ) (n : ℕ) → v ≡ x +ℤ pos n → v +ℤ (pos 0 -ℤ pos n) ≡ x
  given_back v x n e = rw e (omega int_laws)

  credits_not_inflight : (user p w : ℕ) → Key.credits user p ≢ Key.inflight w
  credits_not_inflight user p w e = cc

  module _ (c : Setup) (q : Input) (d : Times) (n : ℕ) (u : Server R) (ordered : d.now ≤ d.later)
      (prompt : d.draw.reserve_now ≤ d.now + 4 * microseconds_per_day)
      (unused : count_open d.draw.event_id u.world.events ≡ 0)
      (count : value_at R u.world.store (Key.inflight q.request.user) ≡ pos n) where
    abbrev own_key : Admitted → Key
    own_key h = Key.credits q.request.user (period_key h.active)

    one_open :
        (h : Admitted) (v : Server R)
        → Admits L q d u (ok h, v)
        → count_open h.ticket.event_id v.world.events ≡ 1
    one_open h v a =
        opened q.request h.tier h.ticket d.draw u.world.events v.world.events a.3 a.4 unused

    closed_event :
        (h : Admitted) (v w : Server R)
        → Admits L q d u (ok h, v)
        → count_open h.ticket.event_id w.world.events ≡ 0
        → count_open d.draw.event_id w.world.events ≡ 0
    closed_event h v w a e = subst (λ id. count_open id w.world.events ≡ 0) a.4 e

    -- An admitted request, by how its service ended.
    served :
        (h : Admitted) (v : Server R)
        → admit c q d u ≡ (ok h, v)
        → Admits L q d u (ok h, v)
        → (r : Outcome Answer × Server R) → Serves L c q h n (reply_to c q h) v r
        → Completes c q d n u r
    served h v e a (Outcome.ok answer, w) s = (
      h,
      v,
      s.0,
      e,
      admit_active c q d u v h e,
      s.1,
      a.0,
      a.1,
      a.2,
      s.2.credits ∙ total _ _ (pos (actual_cost h.tier s.0)) h.ticket.amount a.5,
      s.2.slots,
      closed_event h v w a s.2.closed,
    )
    served h v p a (Outcome.raise e, w) s = (
      s.slots,
      closed_event h v w a s.closed,
      λ user period. elim (Key-discrete (Key.credits user period) (own_key h)) [
        | yes same ↦ rw same (
            kept_or_missing L (R.get u.world.store (own_key h)) _ _ _
              (s.credits ∙ given_back _ _ h.ticket.amount a.5) refl)
        | no other ↦ inl (
            ap (λ o. or_default o (pos 0))
              (s.others (Key.credits user period) other (credits_not_inflight _ _ _))
            ∙ a.8 user period other)
      ],
    )
    served h v e a (Outcome.crash, w) s = inr (
      h,
      v,
      e,
      admit_active c q d u v h e,
      s.0,
      rw s.1 a.5,
      rw s.1 (a.7 ∙ ap (λ x. x +ℤ one_if h.held) count),
      rw s.1 (subst (λ id. count_open id v.world.events ≡ 1) a.4 (one_open h v a)),
    )

    -- A whole chat request, against what it promises. The request's event id is no open event
    -- before it, the user holds n slots, the clock's second reading is no earlier than its first,
    -- and the reservation comes within four days of the first. An answer: `admit` let the request
    -- through with the subscription that serves the user, and the plan of this subscription allows
    -- the tier, which is no internal one; the period's counter is what its sync gave plus the cost
    -- of the reading that the answer was made from; n slots are held and the event is closed. An
    -- `ApiError`: n slots are held, no event of the id is open, and each credits counter has its
    -- old value or had no key. Any other exception: the insert of the event failed, with n slots
    -- held and no open event; or `admit` let the request through and the upstream sent a 429 with
    -- an infinite Retry-After, a 200 to a request without a stream, or a refusal to a streamed
    -- request whose body fails to be read, and then the period's counter keeps the reserved
    -- amount, the event stays open and a slot that was taken stays taken.
    pub chat_completions-Completes : Completes c q d n u (chat_completions c q d u)
    unfolding chat_completions
    chat_completions-Completes =
        >>=-post (Completes c q d n u) (admit c q d) _ u
          (λ h v e.
            let a = subst (Admits L q d u) e (admit-Admits L c q d n u count ordered prompt) in
            served h v e a (serve c q d h (reply_to c q h) v) (
              serve-Serves L c q d h n v (one_open h v a) (a.7 ∙ ap (λ x. x +ℤ one_if h.held) count)
                (reply_to c q h)))
          (λ x v e.
            let a = subst (Admits L q d u) e (admit-Admits L c q d n u count ordered prompt) in
            (
              a.1 ∙ count,
              subst (λ x. count_open d.draw.event_id x ≡ 0) (sym a.0) unused,
              λ user period. a.2 (Key.credits user period) refl,
            ))
          (λ v e.
            let a = subst (Admits L q d u) e (admit-Admits L c q d n u count ordered prompt) in
            inl (a.0, a.2 ∙ count, subst (λ x. count_open d.draw.event_id x ≡ 0) (sym a.1) unused))

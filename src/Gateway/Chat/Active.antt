-- ===== src/Gateway/Chat/Active.antt =====
-- The subscription of a request that `admit` lets through.
use ufuk_ai_agent.Prelude.{◌≡◌, subst, Bool, Option, none, some}
use ufuk_ai_agent.Errors.{ApiError, Outcome, ok, raise, crash, api_error}
use ufuk_ai_agent.Action.{Action, >>=-post, or_raise, ◌>>=◌}
use ufuk_ai_agent.Tiers.{TierView}
use ufuk_ai_agent.Redis.{Redis, Key}
use ufuk_ai_agent.Subscriptions.{ActiveSubscription, period_key, get_active_or_rolled_subscription}
use ufuk_ai_agent.Gateway.World.{World}
use ufuk_ai_agent.Gateway.Reserve.{Ticket}
use ufuk_ai_agent.Gateway.Chat.{
  Server, Setup, Input, Times, Admitted, permitted_tier, subscribe, limit_rate, pass_breaker,
  hold_slot, watch, reserve_or_let_go, admit, global_error, user_error, let_go,
}

-- The subscription that serves the user.
abbrev pub active_of : {R : Redis} → Setup → Input → Times → Server R → Option ActiveSubscription
active_of c q d u =
    (get_active_or_rolled_subscription c.plans u.subs q.request.user d.now d.later d.fresh
      d.stamp).0

module _ {R : Redis} where
  -- Where a request is let through, it is with this subscription.
  abbrev With : Option ActiveSubscription → Outcome Admitted × Server R → Type 0
  With o (Outcome.ok h, v) = o ≡ some h.active
  With o (Outcome.raise e, v) = Unit
  With o (Outcome.crash, v) = Unit

  through :
      {A : Type 0} (o : Option ActiveSubscription) (m : Action (Server R) A)
      (f : A → Action (Server R) Admitted) (v : Server R)
      → ((a : A) (w : Server R) → m v ≡ (ok a, w) → With o (f a w))
      → With o ((m >>= f) v)
  through o m f v h = >>=-post (With o) m f v h (λ e w p. tt) (λ w p. tt)

  reserve_or_let_go-With :
      (c : Setup) (q : Input) (d : Times) (a : ActiveSubscription) (tier : TierView) (held : Bool)
      (o : Option ActiveSubscription) (v : Server R)
      → o ≡ some a
      → With o (reserve_or_let_go c q d a tier held v)
  unfolding reserve_or_let_go
  reserve_or_let_go-With c q d a tier held o v e = go _
    where
      go :
          (r : Outcome Ticket × World R)
          → With o (elim r.0 [
            | ok t ↦ (
              ok (record { active = a; tier = tier; ticket = t; held = held }),
              record v { world = r.1 },
            )
            | raise e ↦ (raise e, record v { world = let_go q.request.user held r.1 })
            | crash ↦ (crash, record v { world = let_go q.request.user held r.1 })
          ])
      go (Outcome.ok t, w) = e
      go (Outcome.raise x, w) = tt
      go (Outcome.crash, w) = tt

  subscribed :
      (o : Option ActiveSubscription) (e : ApiError) (v w : Server R) (a : ActiveSubscription)
      → or_raise o e v ≡ (ok a, w)
      → o ≡ some a
  subscribed none e v w a h = cc
  subscribed (some b) e v w a h = cc

  admit-With :
      (c : Setup) (q : Input) (d : Times) (u : Server R) → With (active_of c q d u) (admit c q d u)
  unfolding admit subscribe
  admit-With c q d u =
      let o = active_of c q d u in
      through o (subscribe c q d) _ u (λ a v s.
        through o (or_raise (permitted_tier q.tier a.plan) (api_error 403 "model_not_allowed")) _ v
          (λ tier v1 e1.
            through o (limit_rate Key.global_rpm c.global_rate_limit_per_minute global_error) _ v1
              (λ z v2 e2.
                through o
                  (limit_rate (Key.rpm q.request.user (period_key a)) a.plan.requests_per_minute
                    (user_error d))
                  _ v2
                  (λ z v3 e3. through o (pass_breaker c d) _ v3 (λ z v4 e4.
                    through o (hold_slot q a) _ v4 (λ held v5 e5.
                      through o (watch q d) _ v5 (λ z v6 e6.
                        reserve_or_let_go-With c q d a tier held o v6
                          (subscribed o _ _ v a s))))))))

  pub admit_active :
      (c : Setup) (q : Input) (d : Times) (u v : Server R) (h : Admitted)
      → admit c q d u ≡ (ok h, v)
      → active_of c q d u ≡ some h.active
  admit_active c q d u v h e = subst (With (active_of c q d u)) e (admit-With c q d u)

-- ===== src/Gateway/Chat/Admit.antt =====
-- The checks of `chat_completions` in their order, up to the reservation's end.
use text.Mathlib.Text.{◌==◌ as str_eq}
use ufuk_ai_agent.Prelude.{
  ℕ, ◌+◌, ◌*◌, ◌<◌, ◌≤◌, ◌≡◌, refl, ap, subst, Bool, true, false, not, ◌&&◌, Option, none, some,
  any, if◌then◌else◌,
}
use ufuk_ai_agent.Prelude.Int.{ℤ, pos}
use ufuk_ai_agent.Errors.{ApiError, Outcome, ok, raise, crash, api_error}
use ufuk_ai_agent.Action.{Action, >>=-post, or_raise, ◌>>=◌, ◌>>◌}
use ufuk_ai_agent.Models.{Plan, microseconds_per_day}
use ufuk_ai_agent.Tiers.{TierView}
use ufuk_ai_agent.Redis.{Redis, Key, IsLawful, value_at}
use ufuk_ai_agent.Limits.Breaker.{allow_request}
use ufuk_ai_agent.Limits.Rate.{check_rate_limit}
use ufuk_ai_agent.Subscriptions.{ActiveSubscription, period_key}
use ufuk_ai_agent.Subscriptions.Unpaid.{rolled_ends}
use ufuk_ai_agent.Gateway.Reserve.{ledger_ttl}
use ufuk_ai_agent.Gateway.Chat.{
  Server, Setup, Input, Times, Admitted, permitted_tier, subscribe, limit_rate, pass_breaker,
  hold_slot, watch, reserve_or_let_go, admit, global_error, user_error, too_many,
}
use ufuk_ai_agent.Gateway.Chat.Admission.{
  Quiet, Slotted, subscribe-Quiet, limit_rate-Quiet, pass_breaker-Quiet, watch-Quiet, Quiet-refl,
  or_raise-Quiet, Quiet-trans,
}
use ufuk_ai_agent.Gateway.Chat.Slot.{
  Held, hold_slot-Held, Slotted-before, Slotted-after, ledger_ttl_positive,
}
use ufuk_ai_agent.Gateway.Chat.Admits.{Admits, Quiet-raise, Slotted-raise, reserve_or_let_go-Admits}

none_not_some : (tier : TierView) → Path (Option TierView) none (some tier) → ⊥
none_not_some tier e = cc

permitted_tier_found :
    (o : Option TierView) (plan : Plan) (tier : TierView)
    → permitted_tier o plan ≡ some tier
    → (o ≡ some tier)
      × (any (str_eq tier.alias) plan.allowed_tier_aliases ≡ true)
      × (tier.is_internal ≡ false)
unfolding permitted_tier
permitted_tier_found none plan tier e = absurd (none_not_some tier e)
permitted_tier_found (some t) plan tier e =
    go (any (str_eq t.alias) plan.allowed_tier_aliases) t.is_internal refl refl e
  where
    go :
        (x y : Bool)
        → any (str_eq t.alias) plan.allowed_tier_aliases ≡ x
        → t.is_internal ≡ y
        → Path (Option TierView) (if x && not y then some t else none) (some tier)
        → (Path (Option TierView) (some t) (some tier))
          × (any (str_eq tier.alias) plan.allowed_tier_aliases ≡ true)
          × (tier.is_internal ≡ false)
    go true false p q h =
        let same : t ≡ tier = cc in
        (
          h,
          subst (λ (z : TierView). any (str_eq z.alias) plan.allowed_tier_aliases ≡ true) same p,
          subst (λ (z : TierView). z.is_internal ≡ false) same q,
        )
    go true true p q h = absurd (none_not_some tier h)
    go false y p q h = absurd (none_not_some tier h)

module _ {R : Redis} (L : IsLawful R) where
  -- A step that ends in a value or an `ApiError`.
  abbrev NeverCrashes : {A : Type 0} → Action (Server R) A → Type 0
  NeverCrashes m = (v v' : Server R) → m v ≡ (crash, v') → ⊥

  or_raise-NeverCrashes : {A : Type 0} (o : Option A) (e : ApiError) → NeverCrashes (or_raise o e)
  or_raise-NeverCrashes none e v v' h = cc
  or_raise-NeverCrashes (some a) e v v' h = cc

  subscribe-NeverCrashes : (c : Setup) (q : Input) (d : Times) → NeverCrashes (subscribe c q d)
  unfolding subscribe
  subscribe-NeverCrashes c q d v v' h = or_raise-NeverCrashes _ _ _ v' h

  or_raise_ok :
      {A : Type 0} (o : Option A) (e : ApiError) (v v' : Server R) (a : A)
      → or_raise o e v ≡ (ok a, v')
      → o ≡ some a
  or_raise_ok none e v v' a h = cc
  or_raise_ok (some b) e v v' a h = cc

  subscribe_ends :
      (c : Setup) (q : Input) (d : Times) (v v' : Server R) (a : ActiveSubscription)
      → d.now ≤ d.later
      → subscribe c q d v ≡ (ok a, v')
      → d.now < a.period_end
  unfolding subscribe
  subscribe_ends c q d v v' a ordered h =
      rolled_ends c.plans v.subs q.request.user d.now d.later d.fresh d.stamp a ordered
        (or_raise_ok _ _ _ v' a h)

  limit_rate-NeverCrashes :
      (k : Key) (limit : ℕ) (e : ℕ → ApiError) → NeverCrashes (limit_rate k limit e)
  unfolding limit_rate
  limit_rate-NeverCrashes k limit e v v' h =
      go (check_rate_limit R v.world.store k limit 60).0 (ap (λ x. x.0) h)
    where
      go : (o : Option ℤ) → too_many o e ≡ crash → ⊥
      go none h' = cc
      go (some t) h' = cc

  pass_breaker-NeverCrashes : (c : Setup) (d : Times) → NeverCrashes (pass_breaker c d)
  unfolding pass_breaker
  pass_breaker-NeverCrashes c d v v' h =
      go (allow_request c.breaker_config v.breaker d.breaker_now).0 (ap (λ x. x.0) h)
    where
      go :
          (b : Bool)
          → Path
              (Outcome (Unit {0}))
              (if b
                then ok tt
                else raise
                    (record (api_error 503 "upstream_unavailable") { retry_after = some 30 }))
              crash
          → ⊥
      go true h' = cc
      go false h' = cc

  watch-NeverCrashes : (q : Input) (d : Times) → NeverCrashes (watch q d)
  unfolding watch
  watch-NeverCrashes q d v v' h = cc

  watch-NeverRaises :
      (q : Input) (d : Times) (v v' : Server R) (e : ApiError) → watch q d v ≡ (raise e, v') → ⊥
  unfolding watch
  watch-NeverRaises q d v v' e h = cc

  -- A quiet step before the slot.
  Quiet-step :
      {A : Type 0} (q : Input) (d : Times) (u v : Server R) (m : Action (Server R) A)
      (f : A → Action (Server R) Admitted)
      → Quiet L u v
      → Quiet L v (m v).1
      → NeverCrashes m
      → ((a : A) (w : Server R) → m v ≡ (ok a, w) → Quiet L u w → Admits L q d u (f a w))
      → Admits L q d u ((m >>= f) v)
  Quiet-step q d u v m f h k never rest =
      >>=-post (Admits L q d u) m f v
        (λ a w e. rest a w e (Quiet-trans L u v w h (subst (λ x. Quiet L v x.1) e k)))
        (λ x w e. Quiet-raise L q d u w x (Quiet-trans L u v w h (subst (λ x. Quiet L v x.1) e k)))
        (λ w e. absurd (never v w e))

  module _ (c : Setup) (q : Input) (d : Times) (n : ℕ) (u : Server R)
      (count : value_at R u.world.store (Key.inflight q.request.user) ≡ pos n) where
    -- From the slot on.
    hold_and_reserve-Admits :
        (a : ActiveSubscription) (tier : TierView) (v : Server R)
        → Quiet L u v
        → q.tier ≡ some tier
        → any (str_eq tier.alias) a.plan.allowed_tier_aliases ≡ true
        → tier.is_internal ≡ false
        → 0 < ledger_ttl a d.draw
        → Admits L q d u
            ((hold_slot q a >>= λ held. watch q d >> reserve_or_let_go c q d a tier held) v)
    hold_and_reserve-Admits a tier v quiet found allowed outward positive =
        >>=-post (Admits L q d u) (hold_slot q a) _ v
          (λ held w e. watched held w (Slotted-before L q.request.user held u v w quiet (ended e)))
          (λ x w e.
            Slotted-raise L q d u w x (Slotted-before L q.request.user false u v w quiet (ended e)))
          (λ w e. absurd (ended e))
      where
        ended : {r : Outcome Bool × Server R} → hold_slot q a v ≡ r → Held L q.request.user v r
        ended e = subst (Held L q.request.user v) e (hold_slot-Held L q a v)

        watched :
            (held : Bool) (w : Server R)
            → Slotted L q.request.user held u w
            → Admits L q d u ((watch q d >> reserve_or_let_go c q d a tier held) w)
        watched held w s =
            >>=-post (Admits L q d u) (watch q d) _ w
              (λ z x e.
                reserve_or_let_go-Admits L c q d a tier held n u x found allowed outward positive
                  (Slotted-after L q.request.user held u w x s
                    (subst (λ y. Quiet L w y.1) e (watch-Quiet L q d w)))
                  count)
              (λ x' y e. absurd (watch-NeverRaises q d w y x' e))
              (λ x e. absurd (watch-NeverCrashes q d w x e))

    -- The checks of a chat request in their order, for a user with n slots, where the clock's
    -- second reading is no earlier than its first and the reservation comes within four days of
    -- the first. Admitted: the tier exists, the plan allows it and it is no internal one; one
    -- reserved row is appended; the period's counter is what its sync gave plus the ticket's
    -- amount, within the plan's limit; the in-flight count is one more exactly where a slot is
    -- held; no other credits counter changes. An `ApiError`: the events and the in-flight count
    -- are as before, and every counter of credits, windows and slots has its old value or had no
    -- key. Any other exception: the insert of the event failed, and the events and the in-flight
    -- count are as before.
    pub admit-Admits :
        d.now ≤ d.later
        → d.draw.reserve_now ≤ d.now + 4 * microseconds_per_day
        → Admits L q d u (admit c q d u)
    unfolding admit
    admit-Admits ordered prompt =
        Quiet-step q d u u (subscribe c q d) _ (Quiet-refl L u) (subscribe-Quiet L c q d u)
          (subscribe-NeverCrashes c q d)
          (λ a v subscribed h0.
            Quiet-step q d u v
              (or_raise (permitted_tier q.tier a.plan) (api_error 403 "model_not_allowed")) _ h0
              (or_raise-Quiet L v _ _ v (Quiet-refl L v)) (or_raise-NeverCrashes _ _)
              (λ tier v1 chosen h1.
                Quiet-step q d u v1
                  (limit_rate Key.global_rpm c.global_rate_limit_per_minute global_error) _ h1
                  (limit_rate-Quiet L _ c.global_rate_limit_per_minute global_error v1 refl)
                  (limit_rate-NeverCrashes _ _ _)
                  (λ z v2 e2 h2.
                    Quiet-step q d u v2
                      (limit_rate (Key.rpm q.request.user (period_key a)) a.plan.requests_per_minute
                        (user_error d))
                      _ h2 (limit_rate-Quiet L _ a.plan.requests_per_minute (user_error d) v2 refl)
                      (limit_rate-NeverCrashes _ _ _)
                      (λ z v3 e3 h3.
                        Quiet-step q d u v3 (pass_breaker c d) _ h3 (pass_breaker-Quiet L c d v3)
                          (pass_breaker-NeverCrashes c d)
                          (λ z v4 e4 h4.
                            let found =
                              permitted_tier_found q.tier a.plan tier
                                (or_raise_ok _ _ v v1 tier chosen) in
                            hold_and_reserve-Admits a tier v4 h4 found.0 found.1 found.2 (
                              ledger_ttl_positive a d.draw d.now
                                (subscribe_ends c q d u v a ordered subscribed) prompt))))))

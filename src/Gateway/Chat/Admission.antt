-- ===== src/Gateway/Chat/Admission.antt =====
-- What the checks of `chat_completions` leave of the ledgers, the events and the slots.
use Prim.Native.String.{String}
use ufuk_ai_agent.Prelude.{
  ℕ, ◌+◌, ◌<◌, ◌≡◌, ◌≢◌, refl, sym, ap, ◌∙◌, inl, inr, Bool-cases, Bool, true, false, Option, none,
  some, arith,
}
use ufuk_ai_agent.Prelude.Int.{pos, ◌+ℤ◌, ltb_ℤ}
use ufuk_ai_agent.Errors.{ApiError, api_error}
use ufuk_ai_agent.Action.{or_raise}
use ufuk_ai_agent.Redis.{Redis, Key, IsLawful, value_at}
use ufuk_ai_agent.Limits.Rate.Window.{get-check_rate_limit_ne}
use ufuk_ai_agent.Limits.Guard.{acquire_slot, observe, anomaly_bucket}
use ufuk_ai_agent.Limits.Guard.Slots.{get-start_ttl}
use ufuk_ai_agent.Subscriptions.{get_active_or_rolled_subscription}
use ufuk_ai_agent.Gateway.Finalize.Ends.{one_if}
use ufuk_ai_agent.Gateway.Chat.{
  Server, Setup, Input, Times, subscribe, limit_rate, pass_breaker, watch,
}

-- The keys that carry a charge or a slot: no check before the slot touches them.
abbrev pub is_charge : Key → Bool
is_charge (Key.credits _ _) = true
is_charge (Key.budget _ _) = true
is_charge (Key.inflight _) = true
is_charge (Key.rpm _ _) = false
is_charge Key.global_rpm = false
is_charge (Key.anomaly_clients _ _) = false
is_charge (Key.anomaly_count _ _) = false
is_charge (Key.register_ip _) = false
is_charge (Key.login_ip _) = false
is_charge (Key.oauth_ip _) = false
is_charge (Key.login_account _) = false

charge_ne : (j k : Key) → is_charge j ≡ true → is_charge k ≡ false → j ≢ k
charge_ne j k h n e = absurd (clash (sym h ∙ ap is_charge e ∙ n))
  where
    clash : true ≡ false → ⊥
    clash c = cc

module _ {R : Redis} (L : IsLawful R) where
  -- The tables and the charges of two states are the same.
  pub record Quiet (v v' : Server R) : Type 0 where
    pub events : v'.world.events ≡ v.world.events
    pub charges : (j : Key) → is_charge j ≡ true → R.get v'.world.store j ≡ R.get v.world.store j

  pub Quiet-refl : (v : Server R) → Quiet v v
  Quiet-refl v = record { events = refl; charges = λ j h. refl }

  pub Quiet-trans : (u v w : Server R) → Quiet u v → Quiet v w → Quiet u w
  Quiet-trans u v w a b = record {
    events = b.events ∙ a.events;
    charges = λ j h. b.charges j h ∙ a.charges j h;
  }

  pub limit_rate-Quiet :
      (k : Key) (limit : ℕ) (e : ℕ → ApiError) (v : Server R)
      → is_charge k ≡ false
      → Quiet v (limit_rate k limit e v).1
  unfolding limit_rate
  limit_rate-Quiet k limit e v h = record {
    events = refl;
    charges = λ j c.
        get-check_rate_limit_ne R L k limit 60 (omega arith) v.world.store j (charge_ne j k c h);
  }

  get-observe :
      (s : R.Store) (user : ℕ) (hash : String) (window distinct burst now : ℕ) (j : Key)
      → is_charge j ≡ true
      → R.get (observe R s user hash window distinct burst now).1 j ≡ R.get s j
  unfolding observe
  get-observe s user hash window distinct burst now j h =
      let grace : 0 < window + 60 = omega arith in
      let counter = Key.anomaly_count user (anomaly_bucket window now) in
      L.get-expire _ _ j _ grace
      ∙ L.get-expire _ _ j _ grace
      ∙ L.get-incrby_ne _ counter j _ (charge_ne j counter h refl)
      ∙ L.get-sadd s _ j hash

  pub watch-Quiet : (q : Input) (d : Times) (v : Server R) → Quiet v (watch q d v).1
  unfolding watch
  watch-Quiet q d v = record {
    events = refl;
    charges = λ j c. get-observe v.world.store q.request.user q.client_hash _ _ _ d.guard_now j c;
  }

  pub or_raise-Quiet :
      {A : Type 0} (v : Server R) (o : Option A) (e : ApiError) (v' : Server R)
      → Quiet v v'
      → Quiet v (or_raise o e v').1
  or_raise-Quiet v none e v' h = h
  or_raise-Quiet v (some a) e v' h = h

  pub subscribe-Quiet :
      (c : Setup) (q : Input) (d : Times) (v : Server R) → Quiet v (subscribe c q d v).1
  unfolding subscribe
  subscribe-Quiet c q d v =
      let (found, subs) =
        get_active_or_rolled_subscription c.plans v.subs q.request.user d.now d.later d.fresh
          d.stamp in
      or_raise-Quiet v found (api_error 403 "subscription_inactive") (record v { subs = subs })
        (record { events = refl; charges = λ j h. refl })

  pub pass_breaker-Quiet : (c : Setup) (d : Times) (v : Server R) → Quiet v (pass_breaker c d v).1
  unfolding pass_breaker
  pass_breaker-Quiet c d v = record { events = refl; charges = λ j h. refl }

  pub get-acquire_slot_ne :
      (s : R.Store) (user : ℕ) (limit : Option ℕ) (j : Key)
      → j ≢ Key.inflight user
      → R.get (acquire_slot R s user limit).1 j ≡ R.get s j
  unfolding acquire_slot
  get-acquire_slot_ne s user none j h = refl
  get-acquire_slot_ne s user (some limit) j h =
      let key = Key.inflight user in
      let count = (R.incrby s key (pos 1)).0 in
      let started =
        get-start_ttl R L user (R.incrby s key (pos 1)).1 key j count
        ∙ L.get-incrby_ne s key j _ h in
      elim (Bool-cases (ltb_ℤ (pos limit) count)) [
        | inl over ↦ rw over (L.get-incrby_ne _ key j _ h ∙ started)
        | inr fits ↦ rw fits started
      ]

  -- A state that differs by the slot of one request.
  pub record Slotted (user : ℕ) (held : Bool) (v v' : Server R) : Type 0 where
    pub events : v'.world.events ≡ v.world.events
    pub charges :
        (j : Key)
        → is_charge j ≡ true
        → j ≢ Key.inflight user
        → R.get v'.world.store j ≡ R.get v.world.store j
    pub count :
        value_at R v'.world.store (Key.inflight user)
        ≡ value_at R v.world.store (Key.inflight user) +ℤ one_if held

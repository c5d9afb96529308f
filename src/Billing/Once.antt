-- ===== src/Billing/Once.antt =====
-- Two deliveries of one event to `billing_webhook`.
use Prim.Native.String.{String}
use ufuk_ai_agent.Prelude.{true, ℕ, ◌≡◌, sym, ap, subst, ◌∙◌, Option, some, List, ◌++◌}
use ufuk_ai_agent.Errors.{Outcome, ok, raise, crash}
use ufuk_ai_agent.Models.{Subscription}
use ufuk_ai_agent.Json.{Value, string}
use ufuk_ai_agent.Subscriptions.{GrantMode, assign_plan}
use ufuk_ai_agent.Subscriptions.Grants.{assign_plan_once}
use ufuk_ai_agent.Billing.{
  NormalizedEvent, Delivery, Setup, Times, Receipt, ignored, unknown_price, unknown_user, assigned,
  event_id_text, billing_webhook,
}
use ufuk_ai_agent.Billing.Redelivery.{Grant, Receives, billing_webhook-Receives}

-- The id that a grant was made with.
id_of_grant :
    (v : Option Value) (id : Option String) (s : String)
    → v ≡ some (string s)
    → event_id_text v ≡ some id
    → id ≡ some s
id_of_grant v id s h k =
    let e : Path (Option (Option String)) (some (some s)) (some id) = (rw h at k) in
    let f : some s ≡ id = cc in sym f

module _ (user plan_id now fresh stamp user' plan_id' now' fresh' stamp' : ℕ)
    (mode mode' : GrantMode) (raced raced' subs subs' subs'' : List Subscription) (id : String)
    (row row' : Subscription) where
  second_grant :
      assign_plan subs raced true user plan_id mode (some id) now fresh stamp ≡ (ok row, subs')
      → assign_plan subs' raced' true user' plan_id' mode' (some id) now' fresh' stamp'
        ≡ (ok row', subs'')
      → subs'' ≡ subs' ++ raced'
  second_grant h h' =
      let again =
        subst
          (λ after.
            assign_plan after raced' true user' plan_id' mode' (some id) now' fresh' stamp'
            ≡ (ok row, after ++ raced'))
          (ap (λ r. r.1) h)
          (assign_plan_once subs raced true user plan_id mode id now fresh stamp row raced' true
            user' plan_id' mode' now' fresh' stamp' (ap (λ r. r.0) h)) in
      ap (λ r. r.1) (sym h' ∙ again)

granted_twice :
    (c c' : Setup) (e e' : NormalizedEvent) (d d' : Times) (subs subs' subs'' : List Subscription)
    (name name' id : String)
    → Grant c e d subs name subs'
    → Grant c' e' d' subs' name' subs''
    → e.provider_event_id ≡ some (string id)
    → e'.provider_event_id ≡ some (string id)
    → subs'' ≡ subs' ++ d'.raced
granted_twice c c' e e' d d' subs subs' subs'' name name' id g g' h h' =
    second_grant g.account.id g.plan.id d.now d.fresh d.stamp g'.account.id g'.plan.id d'.now
      d'.fresh d'.stamp g.mode g'.mode d.raced d'.raced subs subs' subs'' id g.row g'.row
      (rw (id_of_grant e.provider_event_id g.event_id id h g.identified) at g.granted)
      (rw (id_of_grant e'.provider_event_id g'.event_id id h' g'.identified) at g'.granted)

-- The event that a delivery carries.
one_event :
    (v : Delivery) (e e' : NormalizedEvent)
    → v.event ≡ some (some e)
    → v.event ≡ some (some e')
    → e ≡ e'
one_event v e e' h k =
    let f : Path (Option (Option NormalizedEvent)) (some (some e)) (some (some e')) = sym h ∙ k in
    cc

abbrev after : Setup → Delivery → Times → List Subscription → List Subscription
after c v d subs = (billing_webhook c v d subs).1

Grant-of :
    (c : Setup) (v : Delivery) (d : Times) (subs : List Subscription) (e : NormalizedEvent)
    (name : String)
    → v.event ≡ some (some e)
    → (r : Outcome Receipt × List Subscription) → Receives c v d subs r
    → r.0 ≡ ok (assigned name)
    → Grant c e d subs name r.1
Grant-of c v d subs e name h (Outcome.ok (assigned other), subs') received answer =
    let same : other ≡ name = cc in
    let (found, carried, granted) = received.2 in
    subst (λ n. Grant c e d subs n subs') same
      (subst (λ x. Grant c x d subs other subs') (one_event v found e carried h) granted)
Grant-of c v d subs e name h (Outcome.ok ignored, subs') received answer =
    absurd (not_ignored answer)
  where
    not_ignored : Path (Outcome Receipt) (ok ignored) (ok (assigned name)) → ⊥
    not_ignored x = cc
Grant-of c v d subs e name h (Outcome.ok unknown_price, subs') received answer =
    absurd (not_unknown answer)
  where
    not_unknown : Path (Outcome Receipt) (ok unknown_price) (ok (assigned name)) → ⊥
    not_unknown x = cc
Grant-of c v d subs e name h (Outcome.ok unknown_user, subs') received answer =
    absurd (not_unknown answer)
  where
    not_unknown : Path (Outcome Receipt) (ok unknown_user) (ok (assigned name)) → ⊥
    not_unknown x = cc
Grant-of c v d subs e name h (Outcome.raise x, subs') received answer = absurd (not_raised answer)
  where
    not_raised : Path (Outcome Receipt) (raise x) (ok (assigned name)) → ⊥
    not_raised y = cc
Grant-of c v d subs e name h (Outcome.crash, subs') received answer = absurd (not_crashed answer)
  where
    not_crashed : Path (Outcome Receipt) crash (ok (assigned name)) → ⊥
    not_crashed y = cc

-- If two deliveries carry events with the same text as id, the second comes to the table that the
-- first left, and each is answered with a plan assigned, then the second adds nothing but the rows
-- of other transactions, whatever its plan, user and settings.
pub billing_webhook_once :
    (c c' : Setup) (v v' : Delivery) (e e' : NormalizedEvent) (d d' : Times)
    (subs : List Subscription) (name name' id : String)
    → v.event ≡ some (some e)
    → v'.event ≡ some (some e')
    → e.provider_event_id ≡ some (string id)
    → e'.provider_event_id ≡ some (string id)
    → (billing_webhook c v d subs).0 ≡ ok (assigned name)
    → (billing_webhook c' v' d' (after c v d subs)).0 ≡ ok (assigned name')
    → (billing_webhook c' v' d' (after c v d subs)).1 ≡ after c v d subs ++ d'.raced
billing_webhook_once c c' v v' e e' d d' subs name name' id h h' k k' first second =
    granted_twice c c' e e' d d' subs (after c v d subs) _ name name' id
      (Grant-of c v d subs e name h _ (billing_webhook-Receives c v d subs) first)
      (Grant-of c' v' d' (after c v d subs) e' name' h' _
        (billing_webhook-Receives c' v' d' (after c v d subs)) second)
      k k'

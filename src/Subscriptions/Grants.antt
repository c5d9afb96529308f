-- ===== src/Subscriptions/Grants.antt =====
-- Repeated deliveries of one billing event: `assign_plan` of subscriptions.py.
use Prim.Native.String.{String}
use text.Mathlib.TextEquality.{eq_iff}
use ufuk_ai_agent.Prelude.{
  ℕ, ◌≡◌, refl, ◌∙◌, Bool, true, false, some, List, [], ◌∷◌, ◌++◌, any, arith, inl, inr,
  Option-cases,
}
use ufuk_ai_agent.Errors.{ok}
use ufuk_ai_agent.Models.{Subscription}
use ufuk_ai_agent.Subscriptions.Tables.{first}
use ufuk_ai_agent.Subscriptions.{
  GrantMode, grant_period, has_event, granted_row, commit_grant, assign_plan,
}

pub first-append_hit {ℓ} :
    {A : Type ℓ} (p : A → Bool) (xs ys : List A) (x : A)
    → first p xs ≡ some x
    → first p (xs ++ ys) ≡ some x
unfolding first
first-append_hit p [] ys x e = cc
first-append_hit p (y ∷ xs) ys x e = ground (arith, first-append_hit p xs ys x)

pub first-append_miss {ℓ} :
    {A : Type ℓ} (p : A → Bool) (xs : List A) (x : A)
    → any p xs ≡ false
    → p x ≡ true
    → first p (xs ++ x ∷ []) ≡ some x
unfolding first
first-append_miss p [] x e h = ground arith
first-append_miss p (y ∷ xs) x e h = ground (arith, first-append_miss p xs x)

has_event_self :
    (e : String) (r : Subscription) → r.billing_event_id ≡ some e → has_event e r ≡ true
has_event_self e r h = ground (arith, eq_iff e e)

-- After a grant for an event, the event's row is the first one found by it.
commit_grant_found :
    (before changed raced : List Subscription) (references_ok : Bool) (row : Subscription)
    (e : String) (granted : Subscription)
    → row.billing_event_id ≡ some e
    → (commit_grant before changed raced references_ok row).0 ≡ ok granted
    → first (has_event e) (commit_grant before changed raced references_ok row).1 ≡ some granted
unfolding commit_grant
commit_grant_found before changed raced references_ok row e granted h done =
    ground (arith, has_event_self e row h, first-append_miss (has_event e) (changed ++ raced) row)

module _ (subs raced : List Subscription) (references_ok : Bool) (user plan_id : ℕ)
    (mode : GrantMode) (e : String) (now fresh stamp : ℕ) (granted : Subscription) where
  assign_plan_found :
      (assign_plan subs raced references_ok user plan_id mode (some e) now fresh stamp).0
        ≡ ok granted
      → first
          (has_event e)
          (assign_plan subs raced references_ok user plan_id mode (some e) now fresh stamp).1
        ≡ some granted
  unfolding assign_plan
  assign_plan_found done = elim (Option-cases (first (has_event e) subs)) [
    | inl missing ↦
        let (period_start, period_end, changed) = grant_period mode subs user now in
        let row = granted_row fresh user plan_id period_start (some e) period_end stamp in
        rw (missing, assign_plan)
          (commit_grant_found subs changed raced references_ok row e granted refl
            (rw (missing, assign_plan) at done))
    | inr (existing, found) ↦
        rw (found, assign_plan)
          (first-append_hit (has_event e) subs raced granted
            (found ∙ ground (arith, rw (found, assign_plan) at done)))
  ]

  assign_plan_redelivered :
      first (has_event e) subs ≡ some granted
      → assign_plan subs raced references_ok user plan_id mode (some e) now fresh stamp
        ≡ (ok granted, subs ++ raced)
  unfolding assign_plan
  assign_plan_redelivered found = ground arith

-- If a grant for a billing event returned a row, a grant for the same event on the table it left,
-- in any mode and to any user and plan, returns that same row and only adds the rows that other
-- transactions committed.
pub assign_plan_once :
    (subs raced : List Subscription) (references_ok : Bool) (user plan_id : ℕ) (mode : GrantMode)
    (e : String) (now fresh stamp : ℕ) (granted : Subscription) (raced' : List Subscription)
    (references_ok' : Bool) (user' plan_id' : ℕ) (mode' : GrantMode) (now' fresh' stamp' : ℕ)
    → (assign_plan subs raced references_ok user plan_id mode (some e) now fresh stamp).0
      ≡ ok granted
    → let after =
        (assign_plan subs raced references_ok user plan_id mode (some e) now fresh stamp).1 in
      assign_plan after raced' references_ok' user' plan_id' mode' (some e) now' fresh' stamp'
      ≡ (ok granted, after ++ raced')
assign_plan_once subs raced references_ok user plan_id mode e now fresh stamp granted raced'
      references_ok' user' plan_id' mode' now' fresh' stamp' done =
    assign_plan_redelivered _ raced' references_ok' user' plan_id' mode' e now' fresh' stamp'
      granted
      (assign_plan_found subs raced references_ok user plan_id mode e now fresh stamp granted done)

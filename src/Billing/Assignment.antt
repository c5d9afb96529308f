-- ===== src/Billing/Assignment.antt =====
-- How `assign_plan` ends, for the callers in routers/billing.py.
use Prim.Native.String.{String}
use ufuk_ai_agent.Prelude.{
  ℕ, ◌≡◌, refl, inl, inr, Bool-cases, Bool, not, ◌&&◌, Option, none, some, List, ◌++◌,
}
use ufuk_ai_agent.Errors.{Outcome, ok, crash}
use ufuk_ai_agent.Models.{Subscription}
use ufuk_ai_agent.Subscriptions.Tables.{first}
use ufuk_ai_agent.Subscriptions.{
  GrantMode, assign_plan, commit_grant, event_taken, has_event, redelivered, granted_row,
  grant_period,
}

-- `assign_plan` returns a row, or ends in another exception with its own changes undone.
abbrev pub Ends :
    List Subscription → List Subscription → Outcome Subscription × List Subscription → Type 0
Ends subs raced (Outcome.ok row, subs') = Unit
Ends subs raced (Outcome.raise _, subs') = ⊥
Ends subs raced (Outcome.crash, subs') = subs' ≡ subs ++ raced

commit_grant-Ends :
    (before changed raced : List Subscription) (references_ok : Bool) (row : Subscription)
    → Ends before raced (commit_grant before changed raced references_ok row)
unfolding commit_grant
commit_grant-Ends before changed raced references_ok row =
    elim (Bool-cases (references_ok && not (event_taken row.billing_event_id (changed ++ raced)))) [
      | inl commits ↦ rw commits tt
      | inr conflicts ↦ rw conflicts (by_event row.billing_event_id)
    ]
  where
    by_found :
        (o : Option Subscription)
        → Ends before raced (elim o [
          | none ↦ (crash, before ++ raced)
          | some existing ↦ (ok existing, before ++ raced)
        ])
    by_found none = refl
    by_found (some existing) = tt

    by_event :
        (o : Option String)
        → Ends before raced (elim o [
          | none ↦ (crash, before ++ raced)
          | some id ↦ elim (first (has_event id) (before ++ raced)) [
            | none ↦ (crash, before ++ raced)
            | some existing ↦ (ok existing, before ++ raced)
          ]
        ])
    by_event none = refl
    by_event (some id) = by_found (first (has_event id) (before ++ raced))

pub assign_plan-Ends :
    (subs raced : List Subscription) (references_ok : Bool) (user plan_id : ℕ) (mode : GrantMode)
    (event_id : Option String) (now fresh stamp : ℕ)
    → Ends subs raced
        (assign_plan subs raced references_ok user plan_id mode event_id now fresh stamp)
unfolding assign_plan
assign_plan-Ends subs raced references_ok user plan_id mode event_id now fresh stamp =
    go _ (redelivered event_id subs) (
      commit_grant-Ends subs (grant_period mode subs user now).2 raced references_ok (
        granted_row fresh user plan_id (grant_period mode subs user now).0 event_id
          (grant_period mode subs user now).1 stamp))
  where
    go :
        (r : Outcome Subscription × List Subscription) (o : Option Subscription)
        → Ends subs raced r
        → Ends subs raced (elim o [ some existing ↦ (ok existing, subs ++ raced) | none ↦ r ])
    go r none h = h
    go r (some existing) h = tt

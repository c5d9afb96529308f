-- ===== src/Subscriptions.antt =====
-- evren-backend/app/services/subscriptions.py: billing periods, the lazy roll of free accounts, and
-- `assign_plan`. A clock reading is an argument; an insert takes the new row's id and time stamp.
pub mod Tables
pub mod Periods
pub mod Unpaid
pub mod Grants
pub mod GrantPeriods
use Prim.Native.String.{String}
use ufuk_ai_agent.Prelude.{
  ℕ, ◌+◌, ◌*◌, ◌/◌, Bool, true, false, ◌&&◌, Option, none, some, List, [], ◌∷◌, ◌++◌, leb, ltb, max,
  ◌==◌, not, map, any, is_some, if◌then◌else◌,
}
use ufuk_ai_agent.Errors.{Outcome, ok, crash, Extra}
use ufuk_ai_agent.Models.{
  Plan, Subscription, SubscriptionStatus, active, expired, cancelled, microseconds_per_day,
}
use ufuk_ai_agent.Subscriptions.Tables.{str_eq?, latest, first, find_plan, max_end}

abbrev pub period_days : ℕ
period_days = 30

abbrev pub period_length : ℕ
period_length = period_days * microseconds_per_day

-- `GrantMode`
pub data GrantMode : Type 0 where
  assign start renew : GrantMode

pub record ActiveSubscription : Type 0 where
  pub subscription_id : ℕ
  pub user_id : ℕ
  pub plan : Plan
  pub period_start : ℕ
  pub period_end : ℕ

-- `period_key`: the day the period began, in UTC.
unfoldable pub period_key : ActiveSubscription → ℕ
period_key a = a.period_start / microseconds_per_day

unfoldable pub is_free_plan : Plan → Bool
is_free_plan p = elim p.price_usd [ none ↦ true | some price ↦ price == 0 ]

unfoldable pub quota_hint : Plan → ℕ → Extra
unfolding is_free_plan
quota_hint p period_end = record {
  reset_at = some period_end;
  upgrade_to = if is_free_plan p then some "plus" else none;
  resets_at = none;
}

abbrev pub is_active : SubscriptionStatus → Bool
is_active active = true
is_active expired = false
is_active cancelled = false

-- `status == ACTIVE and period_start <= now < period_end`
abbrev pub covers : ℕ → Subscription → Bool
covers now r = is_active r.status && (leb r.period_start now && ltb now r.period_end)

-- The `where` clause of `get_active_subscription`.
unfoldable pub is_current : ℕ → ℕ → Subscription → Bool
is_current user now r = r.user_id == user && covers now r

abbrev pub owned_by : ℕ → Subscription → Bool
owned_by user r = r.user_id == user

abbrev pub view : Plan → Subscription → ActiveSubscription
view p r = record {
  subscription_id = r.id;
  user_id = r.user_id;
  plan = p;
  period_start = r.period_start;
  period_end = r.period_end;
}

-- `session.get(Plan, row.plan_id)`, and the view of the row if the plan is there.
unfoldable pub with_plan : List Plan → Subscription → Option ActiveSubscription
with_plan plans r = elim (find_plan r.plan_id plans) [ none ↦ none | some p ↦ some (view p r) ]

unfoldable pub get_active_subscription :
    List Plan → List Subscription → ℕ → ℕ → Option ActiveSubscription
unfolding is_current with_plan
get_active_subscription plans subs user now = elim (latest (is_current user now) subs) [
  | none ↦ none
  | some r ↦ with_plan plans r
]

-- The row that a roll inserts.
abbrev pub rolled_row : ℕ → ℕ → ℕ → ℕ → ℕ → Subscription
rolled_row user plan_id now fresh stamp = record {
  id = fresh;
  user_id = user;
  plan_id = plan_id;
  period_start = now;
  period_end = now + period_length;
  status = active;
  billing_event_id = none;
  created_at = stamp;
}

-- The part of `get_active_or_rolled_subscription` under the lock, from the latest row.
unfoldable pub roll :
    List Plan
    → List Subscription
    → ℕ
    → ℕ
    → ℕ
    → ℕ
    → Subscription
    → Option ActiveSubscription × List Subscription
unfolding is_free_plan with_plan
roll plans subs user now fresh stamp last =
    if covers now last then (with_plan plans last, subs) else elim (find_plan last.plan_id plans) [
      | none ↦ (none, subs)
      | some p ↦
          if not (is_free_plan p)
          then (none, subs)
          else let rolled = rolled_row user last.plan_id now fresh stamp in
            (some (view p rolled), subs ++ rolled ∷ [])
    ]

-- `now` is the first clock reading and `later` the second.
unfoldable pub get_active_or_rolled_subscription :
    List Plan
    → List Subscription
    → ℕ
    → ℕ
    → ℕ
    → ℕ
    → ℕ
    → Option ActiveSubscription × List Subscription
unfolding get_active_subscription roll
get_active_or_rolled_subscription plans subs user now later fresh stamp =
    elim (get_active_subscription plans subs user now) [
      | some a ↦ (some a, subs)
      | none ↦ elim (latest (owned_by user) subs) [
        | none ↦ (none, subs)
        | some last ↦ roll plans subs user later fresh stamp last
      ]
    ]

unfoldable pub ensure_default_subscription :
    List Plan → List Subscription → ℕ → ℕ → ℕ → ℕ → ℕ → Bool × List Subscription
unfolding get_active_subscription
ensure_default_subscription plans subs user now later fresh stamp =
    elim (get_active_subscription plans subs user now) [
      | some _ ↦ (false, subs)
      | none ↦ elim (first (λ (p : Plan). p.is_default) plans) [
        | none ↦ (false, subs)
        | some p ↦ (true, subs ++ rolled_row user p.id later fresh stamp ∷ [])
      ]
    ]

-- `update(Subscription).where(user, ACTIVE).values(status=CANCELLED)`
unfoldable pub cancel_active : ℕ → List Subscription → List Subscription
cancel_active user [] = []
cancel_active user (r ∷ subs) =
    (if owned_by user r && is_active r.status then record r { status = cancelled } else r)
    ∷ cancel_active user subs

-- `current.status = CANCELLED` on the row of an id.
unfoldable pub cancel_row : ℕ → List Subscription → List Subscription
cancel_row id [] = []
cancel_row id (r ∷ subs) =
    (if r.id == id then record r { status = cancelled } else r) ∷ cancel_row id subs

-- The period of a grant, and the table with the rows it ends.
unfoldable pub grant_period : GrantMode → List Subscription → ℕ → ℕ → ℕ × ℕ × List Subscription
unfolding is_current cancel_active cancel_row
grant_period renew subs user now =
    let anchor : ℕ = elim (max_end user subs) [ none ↦ now | some end ↦ max now end ] in
    (anchor, anchor + period_length, subs)
grant_period start subs user now = (now, now + period_length, cancel_active user subs)
grant_period assign subs user now = elim (latest (is_current user now) subs) [
  | some current ↦ (current.period_start, current.period_end, cancel_row current.id subs)
  | none ↦ (now, now + period_length, cancel_active user subs)
]

abbrev pub has_event : String → Subscription → Bool
has_event e r = str_eq? e r.billing_event_id

abbrev pub event_taken : Option String → List Subscription → Bool
event_taken none subs = false
event_taken (some e) subs = any (has_event e) subs

-- The row that a grant inserts.
abbrev pub granted_row : ℕ → ℕ → ℕ → ℕ → Option String → ℕ → ℕ → Subscription
granted_row fresh user plan_id period_start billing_event_id period_end stamp = record {
  id = fresh;
  user_id = user;
  plan_id = plan_id;
  period_start = period_start;
  period_end = period_end;
  status = active;
  billing_event_id = billing_event_id;
  created_at = stamp;
}

-- The commit and its `except IntegrityError`. `raced` holds the rows that other transactions have
-- committed since this one began; `references_ok` says that the user and the plan exist.
unfoldable pub commit_grant :
    List Subscription
    → List Subscription
    → List Subscription
    → Bool
    → Subscription
    → Outcome Subscription × List Subscription
commit_grant before changed raced references_ok row =
    if references_ok && not (event_taken row.billing_event_id (changed ++ raced))
    then (ok row, (changed ++ raced) ++ row ∷ [])
    else elim row.billing_event_id [
      | none ↦ (crash, before ++ raced)
      | some e ↦ elim (first (has_event e) (before ++ raced)) [
        | none ↦ (crash, before ++ raced)
        | some existing ↦ (ok existing, before ++ raced)
      ]
    ]

-- The pre-check of `assign_plan` for a redelivered event.
abbrev pub redelivered : Option String → List Subscription → Option Subscription
redelivered none subs = none
redelivered (some e) subs = first (has_event e) subs

unfoldable pub assign_plan :
    List Subscription
    → List Subscription
    → Bool
    → ℕ
    → ℕ
    → GrantMode
    → Option String
    → ℕ
    → ℕ
    → ℕ
    → Outcome Subscription × List Subscription
unfolding grant_period commit_grant
assign_plan subs raced references_ok user plan_id mode billing_event_id now fresh stamp =
    elim (redelivered billing_event_id subs) [
      | some existing ↦ (ok existing, subs ++ raced)
      | none ↦
          let (period_start, period_end, changed) = grant_period mode subs user now in
          commit_grant subs changed raced references_ok
            (granted_row fresh user plan_id period_start billing_event_id period_end stamp)
    ]

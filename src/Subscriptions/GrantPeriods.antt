-- ===== src/Subscriptions/GrantPeriods.antt =====
-- The periods that `assign_plan` opens, and who is served after it.
use Prim.Native.String.{String}
use ufuk_ai_agent.Prelude.{
  ℕ, ◌+◌, ◌≤◌, ◌≡◌, refl, sym, ap, ◌∙◌, Bool, true, false, ◌&&◌, Option, none, some, List, [], ◌∷◌,
  ◌++◌, ◌==◌, any, arith,
}
use mathlib.Core.Path.{subst}
use ufuk_ai_agent.Errors.{Outcome, ok}
use ufuk_ai_agent.Models.{Plan, Subscription}
use ufuk_ai_agent.Subscriptions.Tables.{latest, find_plan, max_end, later_end}
use ufuk_ai_agent.Subscriptions.Periods.{AllUpTo, latest-append}
use ufuk_ai_agent.Subscriptions.{
  GrantMode, assign, start, renew, period_length, is_active, is_current, owned_by, covers, view,
  get_active_subscription, cancel_active, cancel_row, grant_period, event_taken, granted_row,
  commit_grant, redelivered, assign_plan,
}

-- Every period of the user ends by the time `t`.
abbrev pub AllEndBy : ℕ → ℕ → List Subscription → Type 0
AllEndBy user t [] = Unit
AllEndBy user t (r ∷ subs) = (owned_by user r ≡ true → r.period_end ≤ t) × AllEndBy user t subs

AllEndBy-le :
    (user t u : ℕ) (subs : List Subscription) → t ≤ u → AllEndBy user t subs → AllEndBy user u subs
AllEndBy-le user t u [] h a = tt
AllEndBy-le user t u (r ∷ subs) h a = (λ o. omega (arith, a.0 o), AllEndBy-le user t u subs h a.1)

abbrev or_zero : Option ℕ → ℕ
or_zero none = 0
or_zero (some n) = n

later_end_bounds :
    (n : ℕ) (o : Option ℕ) → (n ≤ or_zero (later_end n o)) × (or_zero o ≤ or_zero (later_end n o))
later_end_bounds n none = omega arith
later_end_bounds n (some m) = omega arith

max_end-AllEndBy :
    (user : ℕ) (subs : List Subscription) → AllEndBy user (or_zero (max_end user subs)) subs
unfolding max_end
max_end-AllEndBy user [] = tt
max_end-AllEndBy user (r ∷ subs) =
    let (here, rest) = later_end_bounds r.period_end (max_end user subs) in
    (
      (λ o. ground arith),
      AllEndBy-le user (or_zero (max_end user subs)) _ subs (ground arith)
          (max_end-AllEndBy user subs),
    )

pub latest_passes :
    (p : Subscription → Bool) (subs : List Subscription) (r : Subscription)
    → latest p subs ≡ some r
    → p r ≡ true
unfolding latest
latest_passes p [] r e = cc
latest_passes p (s ∷ subs) r e = ground (arith, latest_passes p subs r)

cancel_row-AllUpTo :
    (id t : ℕ) (subs : List Subscription) → AllUpTo t subs → AllUpTo t (cancel_row id subs)
unfolding cancel_row
cancel_row-AllUpTo id t [] h = tt
cancel_row-AllUpTo id t (r ∷ subs) h = (ground arith, cancel_row-AllUpTo id t subs h.1)

cancel_active-AllUpTo :
    (user t : ℕ) (subs : List Subscription) → AllUpTo t subs → AllUpTo t (cancel_active user subs)
unfolding cancel_active
cancel_active-AllUpTo user t [] h = tt
cancel_active-AllUpTo user t (r ∷ subs) h = (ground arith, cancel_active-AllUpTo user t subs h.1)

-- Whether the user has an active row.
abbrev pub has_active : ℕ → List Subscription → Bool
has_active user = any (λ r. owned_by user r && is_active r.status)

cancel_active-none_left :
    (user : ℕ) (subs : List Subscription) → has_active user (cancel_active user subs) ≡ false
unfolding cancel_active
cancel_active-none_left user [] = refl
cancel_active-none_left user (r ∷ subs) = ground (arith, cancel_active-none_left user subs)

-- A grant that finds its event unused and its references in place inserts the mode's row.
assign_plan_grants :
    (subs raced : List Subscription) (user plan_id : ℕ) (mode : GrantMode) (e : Option String)
    (now fresh stamp : ℕ)
    → redelivered e subs ≡ none
    → event_taken e ((grant_period mode subs user now).2 ++ raced) ≡ false
    → let (period_start, period_end, changed) = grant_period mode subs user now in
      let row = granted_row fresh user plan_id period_start e period_end stamp in
      assign_plan subs raced true user plan_id mode e now fresh stamp
      ≡ (ok row, (changed ++ raced) ++ row ∷ [])
unfolding assign_plan commit_grant
assign_plan_grants subs raced user plan_id mode e now fresh stamp first_time free =
    rw (first_time, assign_plan) (rw (free, commit_grant))

grant_period_renew :
    (subs : List Subscription) (user now : ℕ)
    → let (period_start, period_end, changed) = grant_period renew subs user now in
      (now ≤ period_start)
      × AllEndBy user period_start subs
      × (period_end ≡ period_start + period_length)
      × (changed ≡ subs)
unfolding grant_period
grant_period_renew subs user now = (
  ground arith,
  AllEndBy-le user (or_zero (max_end user subs)) _ subs (ground arith) (max_end-AllEndBy user subs),
  refl,
  refl,
)

AllEndBy-append :
    (user t : ℕ) (subs : List Subscription) (r : Subscription)
    → AllEndBy user t (subs ++ r ∷ [])
    → owned_by user r ≡ true
    → r.period_end ≤ t
AllEndBy-append user t [] r a o = a.0 o
AllEndBy-append user t (s ∷ subs) r a o = AllEndBy-append user t subs r a.1 o

module _ (subs raced : List Subscription) (user plan_id : ℕ) (e : Option String)
    (now fresh stamp : ℕ) (first_time : redelivered e subs ≡ none)
    (free : event_taken e (subs ++ raced) ≡ false) where
  -- A renewal whose event is new, and whose user and plan exist, inserts one row and changes no
  -- other; its period starts no earlier than now and no earlier than any period of the user ends,
  -- and is one period long.
  pub renewal_extends :
      let (period_start, period_end, _) = grant_period renew subs user now in
      let row = granted_row fresh user plan_id period_start e period_end stamp in
      (assign_plan subs raced true user plan_id renew e now fresh stamp
        ≡ (ok row, (subs ++ raced) ++ row ∷ []))
      × (now ≤ row.period_start)
      × AllEndBy user row.period_start subs
      × (row.period_end ≡ row.period_start + period_length)
  unfolding grant_period
  renewal_extends =
      let (late, after_all, length, same) = grant_period_renew subs user now in
      (
        assign_plan_grants subs raced user plan_id renew e now fresh stamp first_time free,
        late,
        after_all,
        length,
      )

owned_self : (user : ℕ) → (user == user) ≡ true
owned_self user = ground arith

granted_pair :
    {r s : Subscription} {xs ys : List Subscription}
    → ◌≡◌ {A = Outcome Subscription × List Subscription} (ok r, xs) (ok s, ys)
    → (r ≡ s) × (xs ≡ ys)
granted_pair h = (ground arith, ground arith)

-- Two renewals of a user with new events, the second on the table that the first left and no other
-- transaction in between, never overlap: the second period starts no earlier than the first ends.
pub renewals_chain :
    (subs : List Subscription) (user plan_id plan_id' : ℕ) (e e' : Option String)
    (now fresh stamp now' fresh' stamp' : ℕ) (row row' : Subscription)
    (after after' : List Subscription)
    → redelivered e subs ≡ none
    → event_taken e (subs ++ []) ≡ false
    → assign_plan subs [] true user plan_id renew e now fresh stamp ≡ (ok row, after)
    → redelivered e' after ≡ none
    → event_taken e' (after ++ []) ≡ false
    → assign_plan after [] true user plan_id' renew e' now' fresh' stamp' ≡ (ok row', after')
    → row.period_end ≤ row'.period_start
renewals_chain subs user plan_id plan_id' e e' now fresh stamp now' fresh' stamp' row row' after
      after' t f done t' f' done' =
    let (inserts, _, _, _) = renewal_extends subs [] user plan_id e now fresh stamp t f in
    let (inserts', _, ended, _) =
      renewal_extends after [] user plan_id' e' now' fresh' stamp' t' f' in
    let begins = (grant_period renew after user now').0 in
    let (same_row, same_table) = granted_pair (sym inserts ∙ done) in
    let (same_row', _) = granted_pair (sym inserts' ∙ done') in
    let bound =
      AllEndBy-append user begins (subs ++ []) _
        (subst (AllEndBy user begins) (sym same_table) ended) (owned_self user) in
    omega (
      arith,
      bound,
      ap (λ (r : Subscription). r.period_end) same_row,
      ap (λ (r : Subscription). r.period_start) same_row',
    )

-- The newest row serves its user while it covers the clock.
newest_active :
    (plans : List Plan) (subs : List Subscription) (row : Subscription) (p : Plan) (now : ℕ)
    → AllUpTo row.created_at subs
    → covers now row ≡ true
    → find_plan row.plan_id plans ≡ some p
    → get_active_subscription plans (subs ++ row ∷ []) row.user_id now ≡ some (view p row)
unfolding get_active_subscription
newest_active plans subs row p now up c f =
    ground (arith, latest-append (is_current row.user_id now) subs row up)

grant_period_assign :
    (subs : List Subscription) (user now : ℕ) (r : Subscription)
    → latest (is_current user now) subs ≡ some r
    → grant_period assign subs user now ≡ (r.period_start, r.period_end, cancel_row r.id subs)
unfolding grant_period
grant_period_assign subs user now r e = ground arith

current_covers :
    (user now : ℕ) (r : Subscription) → is_current user now r ≡ true → covers now r ≡ true
unfolding is_current
current_covers user now r h = ground arith

AllUpTo-append_nil : (t : ℕ) (subs : List Subscription) → AllUpTo t subs → AllUpTo t (subs ++ [])
AllUpTo-append_nil t [] h = tt
AllUpTo-append_nil t (r ∷ subs) h = (h.0, AllUpTo-append_nil t subs h.1)

module _ (plans : List Plan) (subs : List Subscription) (user plan_id : ℕ) (e : Option String)
    (now fresh stamp : ℕ) (p : Plan) (first_time : redelivered e subs ≡ none)
    (up : AllUpTo stamp subs) (known : find_plan plan_id plans ≡ some p) where
  -- An assignment to a user with a current subscription, for a new event and a known plan, with no
  -- row younger than the new one and no other transaction in between, serves the new plan at once,
  -- in the period of the current row.
  pub plan_change_keeps_period :
      (r : Subscription)
      → latest (is_current user now) subs ≡ some r
      → event_taken e (cancel_row r.id subs ++ []) ≡ false
      → let after = (assign_plan subs [] true user plan_id assign e now fresh stamp).1 in
        get_active_subscription plans after user now
        ≡ some (record {
          subscription_id = fresh;
          user_id = user;
          plan = p;
          period_start = r.period_start;
          period_end = r.period_end;
        })
  plan_change_keeps_period r current free =
      let changed = cancel_row r.id subs in
      let row = granted_row fresh user plan_id r.period_start e r.period_end stamp in
      let period = grant_period_assign subs user now r current in
      let fits = current_covers user now r (latest_passes (is_current user now) subs r current) in
      rw
        (
          assign_plan_grants subs [] user plan_id assign e now fresh stamp first_time
              (rw period free),
          period,
        )
        (newest_active plans (changed ++ []) row p now
          (AllUpTo-append_nil stamp changed (cancel_row-AllUpTo r.id stamp subs up)) (ground arith)
          known)

  -- A purchase for a new event and a known plan, with no row younger than the new one and no other
  -- transaction in between, serves the plan at once for one period from now, and the rows it was
  -- made on keep no active one of the user.
  pub purchase_serves :
      event_taken e (cancel_active user subs ++ []) ≡ false
      → let after = (assign_plan subs [] true user plan_id start e now fresh stamp).1 in
        (get_active_subscription plans after user now
          ≡ some (record {
            subscription_id = fresh;
            user_id = user;
            plan = p;
            period_start = now;
            period_end = now + period_length;
          }))
        × (has_active user (cancel_active user subs) ≡ false)
  unfolding grant_period
  purchase_serves free =
      let changed = cancel_active user subs in
      let row = granted_row fresh user plan_id now e (now + period_length) stamp in
      (
        rw (assign_plan_grants subs [] user plan_id start e now fresh stamp first_time free) (
            newest_active plans (changed ++ []) row p now
              (AllUpTo-append_nil stamp changed (cancel_active-AllUpTo user stamp subs up))
              (ground arith) known),
        cancel_active-none_left user subs,
      )

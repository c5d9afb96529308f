-- ===== src/Subscriptions/Periods.antt =====
-- Who is served when: the newest current row, and the roll of a free account.
use ufuk_ai_agent.Prelude.{
  ℕ, ◌+◌, ◌≤◌, ◌<◌, ◌≡◌, refl, Bool, true, false, none, some, List, [], ◌∷◌, ◌++◌, arith,
}
use ufuk_ai_agent.Models.{Plan, Subscription}
use ufuk_ai_agent.Subscriptions.Tables.{latest, find_plan}
use ufuk_ai_agent.Subscriptions.{
  period_length, is_current, is_free_plan, owned_by, view, covers, rolled_row,
  get_active_subscription, get_active_or_rolled_subscription,
}

-- No row was inserted after the time stamp.
abbrev pub AllUpTo : ℕ → List Subscription → Type 0
AllUpTo stamp [] = Unit
AllUpTo stamp (r ∷ subs) = (r.created_at ≤ stamp) × AllUpTo stamp subs

-- The row inserted last is the latest of those that pass.
pub latest-append :
    (p : Subscription → Bool) (subs : List Subscription) (r : Subscription)
    → AllUpTo r.created_at subs
    → p r ≡ true
    → latest p (subs ++ r ∷ []) ≡ some r
unfolding latest
latest-append p [] r h e = ground arith
latest-append p (s ∷ subs) r h e = ground (arith, latest-append p subs r h.1 e)

module _ (plans : List Plan) (subs : List Subscription) (user now later fresh stamp : ℕ) where
  roll_inserts :
      (last : Subscription) (p : Plan)
      → get_active_subscription plans subs user now ≡ none
      → latest (owned_by user) subs ≡ some last
      → covers later last ≡ false
      → find_plan last.plan_id plans ≡ some p
      → is_free_plan p ≡ true
      → let row = rolled_row user last.plan_id later fresh stamp in
        get_active_or_rolled_subscription plans subs user now later fresh stamp
        ≡ (some (view p row), subs ++ row ∷ [])
  unfolding get_active_or_rolled_subscription
  roll_inserts last p absent e over f free = ground arith

-- The row inserted last serves its user as long as it covers the clock.
pub newest_serves :
    (plans : List Plan) (subs : List Subscription) (row : Subscription) (p : Plan)
    (now later fresh stamp : ℕ)
    → AllUpTo row.created_at subs
    → covers now row ≡ true
    → find_plan row.plan_id plans ≡ some p
    → get_active_or_rolled_subscription plans (subs ++ row ∷ []) row.user_id now later fresh stamp
      ≡ (some (view p row), subs ++ row ∷ [])
unfolding get_active_or_rolled_subscription
newest_serves plans subs row p now later fresh stamp up c f =
    ground (arith, latest-append (is_current row.user_id now) subs row up)

-- For a user on a free plan whose latest row no longer covers the clock and who has no active
-- subscription, with no row younger than the new one, the first request inserts one row for a new
-- period and serves it; a request on that table within that period is served by that row and
-- inserts nothing.
pub roll_once :
    (plans : List Plan) (subs : List Subscription) (user now later fresh stamp : ℕ)
    (last : Subscription) (p : Plan) (now' later' fresh' stamp' : ℕ)
    → get_active_subscription plans subs user now ≡ none
    → latest (owned_by user) subs ≡ some last
    → covers later last ≡ false
    → find_plan last.plan_id plans ≡ some p
    → is_free_plan p ≡ true
    → AllUpTo stamp subs
    → later ≤ now'
    → now' < later + period_length
    → let (answer, subs') =
        get_active_or_rolled_subscription plans subs user now later fresh stamp in
      (answer ≡ some (view p (rolled_row user last.plan_id later fresh stamp)))
      × (get_active_or_rolled_subscription plans subs' user now' later' fresh' stamp'
          ≡ (answer, subs'))
roll_once plans subs user now later fresh stamp last p now' later' fresh' stamp' absent e over f
      free up from until =
    let row = rolled_row user last.plan_id later fresh stamp in
    rw (roll_inserts plans subs user now later fresh stamp last p absent e over f free)
      (refl, newest_serves plans subs row p now' later' fresh' stamp' up (ground arith) f)

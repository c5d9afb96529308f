-- ===== src/Tests/Periods.antt =====
-- Subscriptions at concrete inputs: user 7's one row covers the times from 1000 for one period.
use ufuk_ai_agent.Prelude.{ℕ, ◌+◌, ◌≤◌, ◌≡◌, refl, true, false, none, some, [], ◌∷◌, ◌++◌, arith}
use ufuk_ai_agent.Errors.{ok}
use ufuk_ai_agent.Models.{Subscription}
use ufuk_ai_agent.Subscriptions.Tables.{latest, first, max_end, find_plan}
use ufuk_ai_agent.Subscriptions.{
  start, renew, period_length, is_current, is_free_plan, owned_by, view, rolled_row,
  get_active_subscription, get_active_or_rolled_subscription, grant_period, granted_row,
  assign_plan,
}
use ufuk_ai_agent.Subscriptions.Periods.{roll_once}
use ufuk_ai_agent.Subscriptions.Grants.{assign_plan_once}
use ufuk_ai_agent.Subscriptions.GrantPeriods.{AllEndBy, renewal_extends}
use ufuk_ai_agent.Tests.Samples.{free_plan, paid_plan, plans, row}

-- A time after the row's period.
abbrev over : ℕ
over = 2000 + period_length

lapsed : (plan_id : ℕ) → get_active_subscription plans (row plan_id ∷ []) 7 over ≡ none
unfolding get_active_subscription latest
lapsed plan_id = refl

newest : (plan_id : ℕ) → latest (owned_by 7) (row plan_id ∷ []) ≡ some (row plan_id)
unfolding latest
newest plan_id = refl

free : is_free_plan free_plan ≡ true
unfolding is_free_plan
free = refl

paid : is_free_plan paid_plan ≡ false
unfolding is_free_plan
paid = refl

find_free : find_plan 1 plans ≡ some free_plan
unfolding find_plan
find_free = refl

find_paid : find_plan 2 plans ≡ some paid_plan
unfolding find_plan
find_paid = refl

roll_once_example :
    let (answer, subs') =
      get_active_or_rolled_subscription plans (row 1 ∷ []) 7 over over 31 over in
    (answer ≡ some (view free_plan (rolled_row 7 1 over 31 over)))
    × (get_active_or_rolled_subscription plans subs' 7 (over + 5) (over + 6) 32 (over + 6)
        ≡ (answer, subs'))
roll_once_example =
    roll_once plans (row 1 ∷ []) 7 over over 31 over (row 1) free_plan (over + 5) (over + 6) 32
      (over + 6) (lapsed 1) (newest 1) refl find_free free (omega arith, tt) (omega arith)
      (omega arith)

first_delivery :
    (assign_plan [] [] true 7 2 renew (some "evt_1") 500 31 500).0
    ≡ ok (granted_row 31 7 2 500 (some "evt_1") (500 + period_length) 500)
unfolding assign_plan first max_end
first_delivery = refl

assign_plan_once_example :
    let after = (assign_plan [] [] true 7 2 renew (some "evt_1") 500 31 500).1 in
    assign_plan after [] true 7 1 start (some "evt_1") 900 32 900
    ≡ (ok (granted_row 31 7 2 500 (some "evt_1") (500 + period_length) 500), after ++ [])
assign_plan_once_example =
    assign_plan_once [] [] true 7 2 renew "evt_1" 500 31 500
      (granted_row 31 7 2 500 (some "evt_1") (500 + period_length) 500) [] true 7 1 start 900 32 900
      first_delivery

renewal_extends_example :
    let (period_start, period_end, _) = grant_period renew (row 2 ∷ []) 7 3000 in
    let granted = granted_row 31 7 2 period_start (some "evt_2") period_end 3000 in
    (assign_plan (row 2 ∷ []) [] true 7 2 renew (some "evt_2") 3000 31 3000
      ≡ (ok granted, ((row 2 ∷ []) ++ []) ++ granted ∷ []))
    × (3000 ≤ granted.period_start)
    × AllEndBy 7 granted.period_start (row 2 ∷ [])
    × (granted.period_end ≡ granted.period_start + period_length)
unfolding first
renewal_extends_example = renewal_extends (row 2 ∷ []) [] 7 2 (some "evt_2") 3000 31 3000 refl refl

abbrev first_renewal : Subscription
first_renewal = granted_row 31 7 2 500 (some "evt_1") (500 + period_length) 500

abbrev second_renewal : Subscription
second_renewal =
    granted_row 32 7 2 (500 + period_length) (some "evt_2") (500 + period_length + period_length)
      600

renews :
    assign_plan [] [] true 7 2 renew (some "evt_1") 500 31 500
    ≡ (ok first_renewal, first_renewal ∷ [])
unfolding assign_plan first max_end
renews = refl

renews_again :
    assign_plan (first_renewal ∷ []) [] true 7 2 renew (some "evt_2") 600 32 600
    ≡ (ok second_renewal, first_renewal ∷ second_renewal ∷ [])
unfolding assign_plan first max_end
renews_again = refl

current : latest (is_current 7 3000) (row 1 ∷ []) ≡ some (row 1)
unfolding latest is_current
current = refl

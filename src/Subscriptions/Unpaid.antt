-- ===== src/Subscriptions/Unpaid.antt =====
-- Who is served without a payment: every end of `get_active_or_rolled_subscription`.
use ufuk_ai_agent.Prelude.{
  ℕ, ◌<◌, ◌≤◌, ◌≡◌, inl, inr, ◌⊎◌, Option-cases, false, Option, none, some, List, [], ◌∷◌, ◌++◌,
  arith,
}
use ufuk_ai_agent.Models.{Plan, Subscription}
use ufuk_ai_agent.Subscriptions.Tables.{latest, find_plan}
use ufuk_ai_agent.Subscriptions.GrantPeriods.{latest_passes}
use ufuk_ai_agent.Subscriptions.{
  is_current, ActiveSubscription, covers, owned_by, view, rolled_row, get_active_subscription, roll,
  get_active_or_rolled_subscription,
}

-- A subscription that serves a request ends after the clock's first reading.
get_active_ends :
    (plans : List Plan) (subs : List Subscription) (user now : ℕ) (a : ActiveSubscription)
    → get_active_subscription plans subs user now ≡ some a
    → now < a.period_end
unfolding get_active_subscription
get_active_ends plans subs user now a e = elim (Option-cases (latest (is_current user now) subs)) [
  | inl missing ↦ ground arith
  | inr (r, found) ↦ ground (arith, latest_passes (is_current user now) subs r found)
]

roll_ends :
    (plans : List Plan) (subs : List Subscription) (user later fresh stamp : ℕ)
    (last : Subscription) (a : ActiveSubscription)
    → (roll plans subs user later fresh stamp last).0 ≡ some a
    → later < a.period_end
unfolding roll
roll_ends plans subs user later fresh stamp last a e = ground arith

pub rolled_ends :
    (plans : List Plan) (subs : List Subscription) (user now later fresh stamp : ℕ)
    (a : ActiveSubscription)
    → now ≤ later
    → (get_active_or_rolled_subscription plans subs user now later fresh stamp).0 ≡ some a
    → now < a.period_end
unfolding get_active_or_rolled_subscription
rolled_ends plans subs user now later fresh stamp a h e =
    elim (Option-cases (get_active_subscription plans subs user now)) [
      | inr (b, found) ↦ ground (arith, get_active_ends plans subs user now b found)
      | inl missing ↦ elim (Option-cases (latest (owned_by user) subs)) [
        | inl nobody ↦ ground arith
        | inr (last, found) ↦ ground (arith, roll_ends plans subs user later fresh stamp last a)
      ]
    ]

-- The table grows only by a period of a free plan that the answer is the view of.
abbrev pub Grows :
    List Plan
    → ℕ
    → ℕ
    → ℕ
    → ℕ
    → List Subscription
    → Option ActiveSubscription × List Subscription
    → Type 0
Grows plans user later fresh stamp subs (none, subs') = subs' ≡ subs
Grows plans user later fresh stamp subs (some a, subs') =
    (subs' ≡ subs)
    ⊎ ((p : Plan) × (last : Subscription) × (latest (owned_by user) subs ≡ some last)
        × (covers later last ≡ false)
        × (find_plan last.plan_id plans ≡ some p)
        × ((p.price_usd ≡ none) ⊎ (p.price_usd ≡ some 0))
        × (a ≡ view p (rolled_row user last.plan_id later fresh stamp))
        × (subs' ≡ subs ++ rolled_row user last.plan_id later fresh stamp ∷ []))

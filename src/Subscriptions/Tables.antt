-- ===== src/Subscriptions/Tables.antt =====
-- The queries that subscriptions.py makes, as functions on the rows of a table.
use Prim.Native.String.{String}
use text.Mathlib.Text.{◌==◌ as str_eq}
use ufuk_ai_agent.Prelude.{
  ℕ, Bool, false, Option, none, some, List, [], ◌∷◌, ltb, max, ◌==◌, if◌then◌else◌,
}
use ufuk_ai_agent.Models.{Plan, Subscription}

-- SQL's `column == value`: NULL equals nothing.
abbrev pub str_eq? : String → Option String → Bool
str_eq? e none = false
str_eq? e (some s) = str_eq e s

-- `.order_by(created_at.desc()).limit(1)` over the rows that pass; the later row wins a tie.
abbrev pub newer : Subscription → Option Subscription → Option Subscription
newer r none = some r
newer r (some s) = if ltb s.created_at r.created_at then some r else some s

unfoldable pub latest : (Subscription → Bool) → List Subscription → Option Subscription
latest p [] = none
latest p (r ∷ subs) = let rest = latest p subs in if p r then newer r rest else rest

-- `session.scalar(select(…).where(…))`: the first row that passes.
unfoldable pub first {ℓ} : {A : Type ℓ} → (A → Bool) → List A → Option A
first p [] = none
first p (x ∷ xs) = let rest = first p xs in if p x then some x else rest

-- `session.get(Plan, id)`
unfoldable pub find_plan : ℕ → List Plan → Option Plan
unfolding first
find_plan id plans = first (λ (p : Plan). p.id == id) plans

abbrev pub later_end : ℕ → Option ℕ → Option ℕ
later_end end none = some end
later_end end (some other) = some (max end other)

-- `func.max(period_end)` over a user's rows.
unfoldable pub max_end : ℕ → List Subscription → Option ℕ
max_end user [] = none
max_end user (r ∷ subs) =
    let rest = max_end user subs in if r.user_id == user then later_end r.period_end rest else rest

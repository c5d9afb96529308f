-- ===== src/Usage/Totals.antt =====
-- The sums of the rollups and of the settled rows: `_rollup_settled_event` of usage_service.py.
use ufuk_ai_agent.Prelude.{
  ℕ, ◌+◌, ◌≤◌, ◌≡◌, refl, ◌∙◌, none, some, List, [], ◌∷◌, ◌==◌, arith, inl, inr, ◌≢◌, Bool-cases,
  Option-cases, sum_by, if◌then◌else◌,
}
use ufuk_ai_agent.Models.{UsageEvent}
use ufuk_ai_agent.Subscriptions.Tables.{first}
use ufuk_ai_agent.Usage.Settle.{update_open_none}
use ufuk_ai_agent.Usage.{
  Amount, quantized, quantized_or_zero, Rollup, Settlement, is_settled, update_open, count_open,
  conflicts, upsert, rollup_row, rollup_settled_event, settle_usage_event,
}

-- The credits and the number of the settled rows.
abbrev pub settled_credits : UsageEvent → ℕ
settled_credits e = if is_settled e.status then e.credits_charged else 0

abbrev pub settled_one : UsageEvent → ℕ
settled_one e = if is_settled e.status then 1 else 0

abbrev pub rolled_credits : Rollup → ℕ
rolled_credits r = r.credits_charged

abbrev pub rolled_requests : Rollup → ℕ
rolled_requests r = r.requests

upsert-totals :
    (new : Rollup) (rollups : List Rollup)
    → new.requests ≡ 1
    → (sum_by rolled_credits (upsert new rollups)
        ≡ sum_by rolled_credits rollups + new.credits_charged)
      × (sum_by rolled_requests (upsert new rollups) ≡ sum_by rolled_requests rollups + 1)
unfolding upsert
upsert-totals new [] h = (omega arith, omega arith)
upsert-totals new (old ∷ rollups) h = elim (Bool-cases (conflicts new old)) [
  | inl hit ↦ rw hit (omega arith, omega arith)
  | inr miss ↦ rw miss (
    omega (arith, (upsert-totals new rollups h).0),
    omega (arith, (upsert-totals new rollups h).1),
  )
]

-- The one open row of an event gains the settlement's credits, if the settlement is a final charge.
update_open-totals :
    (v : Settlement) (a : Amount) (events : List UsageEvent)
    → v.credits ≡ some a
    → count_open v.event_id events ≡ 1
    → (sum_by settled_credits (update_open v events)
        ≡ sum_by settled_credits events + (if is_settled v.status then quantized a else 0))
      × (sum_by settled_one (update_open v events)
          ≡ sum_by settled_one events + (if is_settled v.status then 1 else 0))
unfolding update_open count_open
update_open-totals v a [] h one = absurd (omega arith)
update_open-totals v a (e ∷ events) h one = (
  ground (arith, update_open-totals v a events h, update_open_none v events),
  ground (arith, update_open-totals v a events h, update_open_none v events),
)

-- An event that was open is still found by its id after the update.
first-update_open :
    (v : Settlement) (events : List UsageEvent)
    → count_open v.event_id events ≡ 1
    → first (λ (x : UsageEvent). x.id == v.event_id) (update_open v events) ≢ none
unfolding update_open count_open first
first-update_open v [] h = λ e. absurd (omega arith)
first-update_open v (e ∷ events) h = λ missing. ground (arith, first-update_open v events)

rollup_row_parts :
    (v : Settlement) (e : UsageEvent)
    → ((rollup_row v e).requests ≡ 1)
      × ((rollup_row v e).credits_charged ≡ quantized_or_zero v.credits)
unfolding rollup_row
rollup_row_parts v e = (refl, refl)

rollup_settled_event-totals :
    (v : Settlement) (a : Amount) (events : List UsageEvent) (rollups : List Rollup)
    → v.credits ≡ some a
    → first (λ (x : UsageEvent). x.id == v.event_id) events ≢ none
    → (sum_by rolled_credits (rollup_settled_event v events rollups)
        ≡ sum_by rolled_credits rollups + quantized a)
      × (sum_by rolled_requests (rollup_settled_event v events rollups)
          ≡ sum_by rolled_requests rollups + 1)
unfolding rollup_settled_event
rollup_settled_event-totals v a events rollups h found =
    elim (Option-cases (first (λ (x : UsageEvent). x.id == v.event_id) events)) [
      | inl missing ↦ absurd (found missing)
      | inr (e, hit) ↦
          let (one, charged) = rollup_row_parts v e in
          let (credits, requests) = upsert-totals (rollup_row v e) rollups one in
          (
            rw (hit, rollup_settled_event) (credits ∙ rw (charged, h)),
            rw (hit, rollup_settled_event) requests,
          )
    ]

-- The rollup holds the credits and the number of the settled rows.
pub record Agrees (events : List UsageEvent) (rollups : List Rollup) : Type 0 where
  pub credits : sum_by rolled_credits rollups ≡ sum_by settled_credits events
  pub requests : sum_by rolled_requests rollups ≡ sum_by settled_one events

-- A settlement that carries credits, of an id with at most one open row, keeps the daily rollups
-- in agreement with the events: the rolled-up credits and requests are those of the settled rows.
pub settle-Agrees :
    (events : List UsageEvent) (rollups : List Rollup) (v : Settlement) (a : Amount)
    → v.credits ≡ some a
    → count_open v.event_id events ≤ 1
    → Agrees events rollups
    → let (_, events', rollups') = settle_usage_event events rollups v in Agrees events' rollups'
unfolding settle_usage_event
settle-Agrees events rollups v a h unique agrees =
    elim (Bool-cases (count_open v.event_id events == 1)) [
      | inr closed ↦ ground (arith, update_open_none v events)
      | inl open_row ↦
          let one : count_open v.event_id events ≡ 1 = ground arith in
          let (credits, requests) = update_open-totals v a events h one in
          let (rolled, counted) =
            rollup_settled_event-totals v a (update_open v events) rollups h
              (first-update_open v events one) in
          ground arith
    ]

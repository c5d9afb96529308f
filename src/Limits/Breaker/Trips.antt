-- ===== src/Limits/Breaker/Trips.antt =====
-- The breaker of circuit_breaker.py against the history of the outcomes it was told.
use ufuk_ai_agent.Prelude.{
  ℕ, ◌+◌, ◌≤◌, ◌<◌, ◌≡◌, refl, Bool, true, false, none, some, List, [], ◌∷◌, arith, leb, not, ◌↔◌,
  map, if◌then◌else◌,
}
use ufuk_ai_agent.Limits.Breaker.{
  Config, Breaker, closed, is_open, allow_request, record_success, record_failure,
}

-- The end of an upstream call, with the clock's reading.
pub data Outcome : Type 0 where
  success failure : ℕ → Outcome

unfoldable pub observe_outcome : Config → Breaker → Outcome → Breaker
unfolding record_success record_failure
observe_outcome c b (success clock) = record_success b
observe_outcome c b (failure clock) = record_failure c b clock

-- The breaker after a history, latest outcome first.
unfoldable pub after : Config → List Outcome → Breaker
unfolding observe_outcome
after c [] = closed
after c (o ∷ history) = observe_outcome c (after c history) o

-- The failures since the last success, and the time of the latest outcome.
abbrev pub failures_in_row : List Outcome → ℕ
failures_in_row [] = 0
failures_in_row (success _ ∷ history) = 0
failures_in_row (failure _ ∷ history) = failures_in_row history + 1

abbrev pub latest_failure : List Outcome → ℕ
latest_failure [] = 0
latest_failure (success clock ∷ history) = 0
latest_failure (failure clock ∷ history) = clock

-- What the history says of the breaker.
abbrev pub expected : Config → List Outcome → Breaker
expected c history = record {
  consecutive_failures = failures_in_row history;
  opened_at =
      if leb c.failure_threshold (failures_in_row history)
      then some (latest_failure history)
      else none;
}

-- With a positive threshold, the breaker's state after any history is the number of failures since
-- the last success and, where that has reached the threshold, the time of the latest failure.
pub after-expected :
    (c : Config) (history : List Outcome)
    → 0 < c.failure_threshold
    → after c history ≡ expected c history
unfolding after
after-expected c [] h = ground arith
after-expected c (success clock ∷ history) h = ground arith
after-expected c (failure clock ∷ history) h = ground (arith, after-expected c history h)

-- With a positive threshold, after any history of outcomes a request is refused exactly where the
-- breaker is open, which is exactly where the failures since the last success have reached the
-- threshold and the latest failure is less than the cooldown ago.
pub allow_request-history :
    (c : Config) (history : List Outcome) (clock : ℕ)
    → 0 < c.failure_threshold
    → ((allow_request c (after c history) clock).0 ≡ not (is_open c (after c history) clock))
      × (((allow_request c (after c history) clock).0 ≡ false) ↔ (
          (c.failure_threshold ≤ failures_in_row history)
          × (clock < latest_failure history + c.cooldown_seconds)))
unfolding allow_request is_open
allow_request-history c history clock h =
    rw (after-expected c history h)
      (ground arith, (λ e. (ground arith, ground arith), λ e. ground arith))

-- The answers to callers that ask in a row, with no outcome recorded in between.
unfoldable pub admit_all : Config → Breaker → List ℕ → List Bool × Breaker
unfolding allow_request
admit_all c b [] = ([], b)
admit_all c b (clock ∷ clocks) =
    let (answer, b') = allow_request c b clock in
    let (answers, b'') = admit_all c b' clocks in (answer ∷ answers, b'')

abbrev pub AllFrom : ℕ → List ℕ → Type 0
AllFrom t [] = Unit
AllFrom t (clock ∷ clocks) = (t ≤ clock) × AllFrom t clocks

-- Past the cooldown an open breaker admits every request that asks before an outcome is recorded,
-- and its state does not change.
pub admit_all_past_cooldown :
    (c : Config) (b : Breaker) (opened_at : ℕ) (clocks : List ℕ)
    → b.opened_at ≡ some opened_at
    → AllFrom (opened_at + c.cooldown_seconds) clocks
    → admit_all c b clocks ≡ (map (λ _. true) clocks, b)
unfolding admit_all
admit_all_past_cooldown c b opened_at [] e h = refl
admit_all_past_cooldown c b opened_at (clock ∷ clocks) e h =
    ground (arith, admit_all_past_cooldown c b opened_at clocks e h.1)

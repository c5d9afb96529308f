-- ===== src/Tests/Guards.antt =====
-- Rate limits, slots and the breaker at concrete inputs.
use ufuk_ai_agent.Prelude.{◌+◌, ◌≤◌, ◌<◌, ◌≡◌, ◌↔◌, refl, false, not, some, List, [], ◌∷◌, arith}
use ufuk_ai_agent.Redis.Memory.{empty, memory, memory-IsLawful}
use ufuk_ai_agent.Limits.Guard.Slots.{
  SlotOp, enter, leave, lapse, uncounted, slot_run, Counts, slot_run-Counts,
}
use ufuk_ai_agent.Limits.Breaker.{Config, Breaker, is_open, allow_request}
use ufuk_ai_agent.Limits.Breaker.Trips.{
  Outcome, success, failure, after, failures_in_row, latest_failure, allow_request-history,
}

abbrev slot_ops : List SlotOp
slot_ops = enter ∷ enter ∷ enter ∷ lapse ∷ enter ∷ leave ∷ leave ∷ []

slot_run-Counts_example :
    let (held', s') = slot_run memory 7 2 slot_ops 0 empty in
    Counts memory memory-IsLawful 7 2 (0 + uncounted 2 slot_ops) held' s'
slot_run-Counts_example =
    slot_run-Counts memory memory-IsLawful 7 2 slot_ops 0 0 empty
      (0, refl, omega arith, omega arith, omega arith)

abbrev config : Config
config = record { failure_threshold = 2; cooldown_seconds = 30 }

abbrev history : List Outcome
history = failure 12 ∷ failure 11 ∷ success 5 ∷ []

allow_request-history_example :
    ((allow_request config (after config history) 20).0
      ≡ not (is_open config (after config history) 20))
    × (((allow_request config (after config history) 20).0 ≡ false)
        ↔ ((2 ≤ failures_in_row history) × (20 < latest_failure history + 30)))
allow_request-history_example = allow_request-history config history 20 (omega arith)

abbrev opened : Breaker
opened = record { consecutive_failures = 2; opened_at = some 12 }

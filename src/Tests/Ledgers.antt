-- ===== src/Tests/Ledgers.antt =====
-- The ledgers at concrete inputs, on the in-memory store.
use ufuk_ai_agent.Prelude.{◌+◌, ◌≤◌, ◌≡◌, refl, some, [], ◌∷◌, arith, sum_by}
use ufuk_ai_agent.Prelude.Int.{pos}
use ufuk_ai_agent.Redis.{Key, value_at}
use ufuk_ai_agent.Redis.Memory.{empty, memory, memory-IsLawful}
use ufuk_ai_agent.Ledger.{reserve, period_total}
use ufuk_ai_agent.Ledger.Laws.{Reserves, reserve-Reserves}
use ufuk_ai_agent.Ledger.Race.{
  run_schedule, fresh_requests, granted, owed, run_schedule_within_limit, admitted,
}
use ufuk_ai_agent.Ledger.ColdStart.{start, synced, cold_run, racing, cold_start_race}
use ufuk_ai_agent.Tests.Samples.{event}

abbrev key : Key
key = Key.credits 7 0

reserve-Reserves_example :
    Reserves memory memory-IsLawful empty key 40 100 (reserve memory empty key 40 100)
reserve-Reserves_example = reserve-Reserves memory memory-IsLawful empty key 40 100

-- Three requests of 40 under a limit of 100, their commands interleaved.
run_schedule_within_limit_example :
    let (ps, s') =
      run_schedule memory key 100 (0 ∷ 1 ∷ 2 ∷ 2 ∷ []) (fresh_requests (40 ∷ 40 ∷ 40 ∷ [])) empty in
    (0 + sum_by granted ps ≤ 100)
    × (value_at memory s' key ≡ pos (0 + sum_by granted ps + sum_by owed ps))
run_schedule_within_limit_example =
    run_schedule_within_limit memory memory-IsLawful key 100 (0 ∷ 1 ∷ 2 ∷ 2 ∷ [])
      (40 ∷ 40 ∷ 40 ∷ []) 0 empty refl (omega arith)

spent : period_total (event ∷ []) 7 1000 9000 ≡ 9_000_000
unfolding period_total
spent = refl

-- The reservation of 40 is gone from the ledger although its request was admitted.
cold_start_race_example :
    let (p, q, s') =
      cold_run memory
        (event ∷ [])
        7
        0
        1000
        9000
        600
        10_000_000
        racing
        (start 40)
        (start 25)
        empty in
    (p ≡ synced (admitted 40))
    × (q ≡ synced (admitted 25))
    × (memory.get s' key ≡ some (pos (period_total (event ∷ []) 7 1000 9000 + 25)))
cold_start_race_example =
    cold_start_race memory memory-IsLawful (event ∷ []) 7 0 1000 9000 10_000_000 40 25 600 empty
      refl (omega arith) (omega (arith, spent)) (omega (arith, spent))

-- ===== src/Tests/Me.antt =====
-- The deletion of an account with a row in each table.
use ufuk_ai_agent.Prelude.{true, [], ◌∷◌}
use ufuk_ai_agent.Redis.{Key}
use ufuk_ai_agent.Redis.Memory.{memory, memory-IsLawful, empty}
use ufuk_ai_agent.Auth.{refresh_row}
use ufuk_ai_agent.Me.{State, delete_me}
use ufuk_ai_agent.Me.Deletion.{Deletes, delete_me-Deletes}
use ufuk_ai_agent.Tests.Samples.{event}
use ufuk_ai_agent.Tests.Images.{filled, owned}
use ufuk_ai_agent.Tests.SignIns.{registered}

abbrev state : State memory
state = record {
  store = empty;
  accounts = registered ∷ [];
  refresh_tokens = refresh_row 1 7 "t1" 9_000 10 ∷ refresh_row 2 8 "t2" 9_000 20 ∷ [];
  email_tokens = [];
  events = event ∷ [];
  rollups = [];
  gallery = filled;
}

delete_me-Deletes_example :
    Deletes memory memory-IsLawful
      (λ password hash. true)
      registered
      "p"
      true
      (Key.credits 7 1 ∷ [])
      state
      (delete_me memory (λ password hash. true) registered "p" true (Key.credits 7 1 ∷ []) state)
delete_me-Deletes_example =
    delete_me-Deletes memory memory-IsLawful (λ password hash. true) registered "p" true
      (Key.credits 7 1 ∷ []) state (owned, tt)

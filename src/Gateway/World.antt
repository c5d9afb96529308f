-- ===== src/Gateway/World.antt =====
-- What a chat request reads and writes, and what is given to it from outside.
use Prim.Native.String.{String}
use ufuk_ai_agent.Prelude.{ℕ, Bool, Option, List}
use ufuk_ai_agent.Models.{UsageEvent}
use ufuk_ai_agent.Usage.{Rollup}
use ufuk_ai_agent.Estimate.{Content}
use ufuk_ai_agent.Redis.{Redis}

-- What the two read and change: Redis and the tables.
pub record World (R : Redis) : Type 0 where
  pub store : R.Store
  pub events : List UsageEvent
  pub rollups : List Rollup

-- What the request itself carries.
pub record Request : Type 0 where
  pub user : ℕ
  pub messages : List Content
  pub requested_max_tokens : Option ℕ
  pub session_id : Option String
  pub parent_request_id : Option ℕ

-- The readings of the clock in the order they are taken, and the ids that the insert draws.
-- `insert_fails` says that the database refuses the insert of the usage event.
pub record Draw : Type 0 where
  pub reserve_now : ℕ
  pub window_now : ℕ
  pub event_now : ℕ
  pub request_id : ℕ
  pub event_id : ℕ
  pub insert_fails : Bool

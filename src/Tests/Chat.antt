-- ===== src/Tests/Chat.antt =====
-- A whole chat request on the in-memory store.
use ufuk_ai_agent.Prelude.{ℕ, ◌+◌, ◌*◌, ◌≤◌, ◌≡◌, refl, none, some, [], ◌∷◌, false, arith}
use ufuk_ai_agent.Prelude.Int.{pos, ◌+ℤ◌}
use ufuk_ai_agent.Json.{Fields, field, end, string, int, object}
use ufuk_ai_agent.Models.{microseconds_per_day}
use ufuk_ai_agent.Redis.{Key, value_at}
use ufuk_ai_agent.Redis.Memory.{empty, memory, memory-IsLawful}
use ufuk_ai_agent.Estimate.{plain}
use ufuk_ai_agent.Limits.Breaker.{closed}
use ufuk_ai_agent.Upstream.{Attempt, answered, response}
use ufuk_ai_agent.Usage.{count_open}
use ufuk_ai_agent.Gateway.Chat.{
  Server, Setup, Input, Times, Admitted, admit, serve, reply_to, chat_completions,
}
use ufuk_ai_agent.Gateway.Finalize.Ends.{one_if}
use ufuk_ai_agent.Gateway.Chat.Admits.{Admits}
use ufuk_ai_agent.Gateway.Chat.Admit.{admit-Admits}
use ufuk_ai_agent.Gateway.Chat.Service.{Serves, serve-Serves}
use ufuk_ai_agent.Gateway.Chat.Completion.{Completes, chat_completions-Completes}
use ufuk_ai_agent.Tests.Samples.{tier, plans, row, subscription, event}

abbrev body : Fields
body = field "model" (string "fast") end

abbrev reply_body : Fields
reply_body = field "model" (string "vendor/model") (
    field "usage"
      (object (field "prompt_tokens" (int (pos 9)) (field "completion_tokens" (int (pos 20)) end)))
      end)

abbrev upstream : Fields → ℕ → Attempt
upstream payload attempt = answered (
    response 200 (some (object reply_body)) (record { retry_after = none; ratelimit_reset = none }))

abbrev setup : Setup
setup = record {
  plans = plans;
  global_rate_limit_per_minute = 100;
  breaker_config = record { failure_threshold = 5; cooldown_seconds = 30 };
  encoder = none;
  str = λ v. "";
  parse_date = λ s. none;
  upstream = upstream;
}

abbrev input : Input
input = record {
  request = record {
    user = 7;
    messages = plain "hello" ∷ [];
    requested_max_tokens = some 100;
    session_id = none;
    parent_request_id = none;
  };
  body = body;
  tier = some tier;
  client_hash = "a client";
  security_flagged = false;
  lines = [];
  body_breaks = false;
}

abbrev times : Times
times = record {
  now = 2000;
  later = 2001;
  fresh = 90;
  stamp = 91;
  rate_now = 2002;
  breaker_now = 1;
  guard_now = 1;
  draw = record {
    reserve_now = 3000;
    window_now = 3001;
    event_now = 3002;
    request_id = 60;
    event_id = 61;
    insert_fails = false;
  };
  outcome_now = 2;
  error_now = 4000;
  latency_ms = 5;
}

abbrev server : Server memory
server = record {
  world = record { store = empty; events = []; rollups = [] };
  subs = row 1 ∷ [];
  flags = [];
  breaker = closed;
}

unused : count_open 61 server.world.events ≡ 0
unfolding count_open
unused = refl

ordered : times.now ≤ times.later
ordered = omega arith

prompt : times.draw.reserve_now ≤ times.now + 4 * microseconds_per_day
prompt = omega arith

nobody_waits : value_at memory server.world.store (Key.inflight 7) ≡ pos 0
nobody_waits = refl

admit-Admits_example : Admits memory-IsLawful input times server (admit setup input times server)
admit-Admits_example =
    admit-Admits memory-IsLawful setup input times 0 server nobody_waits ordered prompt

chat_completions-Completes_example :
    Completes memory-IsLawful setup input times 0 server (chat_completions setup input times server)
chat_completions-Completes_example =
    chat_completions-Completes memory-IsLawful setup input times 0 server ordered prompt unused
      nobody_waits

-- A request of the sample event, which holds no slot.
abbrev admitted : Admitted
admitted = record {
  active = subscription;
  tier = tier;
  ticket = record { event_id = 5; est_prompt = 7; amount = 614_000; max_tokens = 100 };
  held = false;
}

abbrev waiting : Server memory
waiting = record server { world = record { store = empty; events = event ∷ []; rollups = [] } }

one_open : count_open 5 waiting.world.events ≡ 1
unfolding count_open
one_open = refl

no_slot : value_at memory waiting.world.store (Key.inflight 7) ≡ pos 0 +ℤ one_if false
unfolding ◌+ℤ◌
no_slot = refl

serve-Serves_example :
    Serves memory-IsLawful setup input admitted 0
      (reply_to setup input admitted)
      waiting
      (serve setup input times admitted (reply_to setup input admitted) waiting)
serve-Serves_example =
    serve-Serves memory-IsLawful setup input times admitted 0 waiting one_open no_slot
      (reply_to setup input admitted)

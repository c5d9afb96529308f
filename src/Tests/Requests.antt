-- ===== src/Tests/Requests.antt =====
-- A request's reservation and its end at concrete inputs, on the in-memory store.
use ufuk_ai_agent.Prelude.{◌<◌, ◌≡◌, refl, true, false, none, some, [], ◌∷◌, arith}
use ufuk_ai_agent.Prelude.Int.{pos}
use ufuk_ai_agent.Json.{Fields, field, end, string, int, object, get, get_in, as_dict}
use ufuk_ai_agent.Models.{settled, failed}
use ufuk_ai_agent.Redis.Memory.{empty, memory, memory-IsLawful}
use ufuk_ai_agent.Estimate.{plain}
use ufuk_ai_agent.Gateway.Response.{Reading, client_body}
use ufuk_ai_agent.Gateway.Response.Privacy.{client_body_private}
use ufuk_ai_agent.Gateway.World.{World, Request, Draw}
use ufuk_ai_agent.Gateway.Reserve.{Ticket, ledger_ttl, reserve}
use ufuk_ai_agent.Gateway.Reserve.Traces.{Traces, reserve-Traces}
use ufuk_ai_agent.Gateway.Finalize.{finalize_event}
use ufuk_ai_agent.Gateway.Finalize.Once.{finalize_event_twice}
use ufuk_ai_agent.Tests.Samples.{tier, subscription}

abbrev upstream_body : Fields
upstream_body = field "model" (string "vendor/model") (
    field "usage" (object (field "cost" (int (pos 1)) (field "prompt_tokens" (int (pos 9)) end)))
      end)

client_body_private_example :
    let seen = client_body "fast" upstream_body in
    (get "model" seen ≡ some (string "fast"))
    × (get_in "evren" (as_dict (get "usage" seen)) ≡ none)
    × (get_in "cost" (as_dict (get "usage" seen)) ≡ none)
client_body_private_example = client_body_private "fast" upstream_body

abbrev request : Request
request = record {
  user = 7;
  messages = plain "hello" ∷ [];
  requested_max_tokens = some 100;
  session_id = none;
  parent_request_id = none;
}

abbrev draw : Draw
draw = record {
  reserve_now = 3000;
  window_now = 3001;
  event_now = 3002;
  request_id = 60;
  event_id = 61;
  insert_fails = false;
}

abbrev before : World memory
before = record { store = empty; events = []; rollups = [] }

lives : 0 < ledger_ttl subscription draw
unfolding ledger_ttl
lives = omega arith

reserve-Traces_example :
    Traces memory memory-IsLawful none request subscription tier 1024 draw before
      (reserve memory none request subscription tier 1024 draw before)
reserve-Traces_example =
    reserve-Traces memory memory-IsLawful none request subscription tier 1024 draw before lives

abbrev reading : Reading
reading = record {
  prompt_tokens = pos 9;
  completion_tokens = pos 20;
  estimated = false;
  cached_prompt_tokens = pos 0;
  cache_write_tokens = pos 0;
  reasoning_tokens = pos 0;
  upstream_cost_usd = none;
  selected_model_id = some "vendor/model";
  finish_reason = some "stop";
}

abbrev issued : Ticket
issued = record { event_id = 61; est_prompt = 7; amount = 614_000; max_tokens = 100 }

finalize_event_twice_example :
    let (held', w') =
      finalize_event memory request subscription tier issued reading settled 5 true before in
    finalize_event memory request subscription tier issued reading failed 6 held' w' ≡ (false, w')
finalize_event_twice_example =
    finalize_event_twice memory memory-IsLawful request subscription tier issued reading reading
      settled failed 5 6 true before refl

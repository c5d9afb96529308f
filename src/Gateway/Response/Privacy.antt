-- ===== src/Gateway/Response/Privacy.antt =====
-- The body that `chat_completions` of routers/gateway.py sends to the client.
use Prim.Native.String.{String}
use ufuk_ai_agent.Prelude.{◌≡◌, none, some, inl, inr, Option-cases}
use ufuk_ai_agent.Json.{string, Fields, get, as_dict, get_in}
use ufuk_ai_agent.Json.Laws.{get-delete, get-put}
use ufuk_ai_agent.Gateway.Response.{strip_protected_usage, client_body}

-- The usage object that a stripped body shows.
strip_usage :
    (obj : Fields)
    → let seen = as_dict (get "usage" (strip_protected_usage obj).1) in
      (get_in "evren" seen ≡ none) × (get_in "cost" seen ≡ none)
unfolding strip_protected_usage
strip_usage obj = elim (Option-cases (as_dict (get "usage" obj))) [
  | inl absent ↦ rw (absent, strip_protected_usage) (rw absent, rw absent)
  | inr (usage, found) ↦
      rw (found, strip_protected_usage)
        (rw get-put (rw get-delete (rw get-delete)), rw get-put (rw get-delete))
]

-- The body that a client receives names the tier's alias as its model, and its usage object has
-- neither the field `cost` nor the field `evren`.
pub client_body_private :
    (alias : String) (obj : Fields)
    → let seen = client_body alias obj in
      (get "model" seen ≡ some (string alias))
      × (get_in "evren" (as_dict (get "usage" seen)) ≡ none)
      × (get_in "cost" (as_dict (get "usage" seen)) ≡ none)
unfolding client_body
client_body_private alias obj =
    (rw get-put, rw get-put (strip_usage obj).0, rw get-put (strip_usage obj).1)

-- ===== src/Tests/Upstream.antt =====
-- A client's body, and a reply of the upstream.
use Prim.Native.String.{String}
use ufuk_ai_agent.Prelude.{◌≡◌, Option, none, some, [], ◌∷◌}
use ufuk_ai_agent.Prelude.Int.{ℤ, pos}
use ufuk_ai_agent.Json.{Value, Fields, field, end, string, int, array, nil, get}
use ufuk_ai_agent.Upstream.{
  sanitize_request, model_chain, truthy_text, normalize_upstream_error, Headers, infinite,
}
use ufuk_ai_agent.Upstream.Payload.{
  sanitize_request_pinned, sanitize_request_keeps_n, one_model, chained_models, router,
}
use ufuk_ai_agent.Upstream.Errors.{Normal, normalize_upstream_error-Normal}
use ufuk_ai_agent.Tiers.{TierView}
use ufuk_ai_agent.Tests.Samples.{tier}

abbrev routed : TierView
routed = record tier {
  fallback_model_ids = "vendor/spare" ∷ [];
  routing_plugin = some "auto-router";
}

-- A client that asks for a model, for fallbacks and for three choices.
abbrev pushy : Fields
pushy = field "model" (string "vendor/expensive") (
    field "models" (array nil)
      (field "max_tokens" (int (pos 9_999_999)) (field "n" (int (pos 3)) end)))

sanitize_request_pinned_example :
    let payload = sanitize_request routed 100 pushy in
    (get "model" payload ≡ one_model routed)
    × (get "models" payload ≡ chained_models routed)
    × (get "plugins" payload ≡ router (model_chain routed) (truthy_text routed.routing_plugin))
    × (get "max_tokens" payload ≡ some (int (pos 100)))
sanitize_request_pinned_example = sanitize_request_pinned routed 100 pushy

sanitize_request_keeps_n_example : get "n" (sanitize_request routed 100 pushy) ≡ get "n" pushy
sanitize_request_keeps_n_example = sanitize_request_keeps_n routed 100 pushy

abbrev no_text : Value → String
no_text v = ""

abbrev no_date : String → Option ℤ
no_date s = none

abbrev forever : Headers
forever = record { retry_after = some infinite; ratelimit_reset = none }

normalize_upstream_error-Normal_example :
    Normal 429 forever (normalize_upstream_error no_text no_date (pos 0) 429 none forever)
normalize_upstream_error-Normal_example =
    normalize_upstream_error-Normal no_text no_date (pos 0) 429 none forever

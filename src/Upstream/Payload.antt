-- ===== src/Upstream/Payload.antt =====
-- The payload that `sanitize_request` of upstream.py builds, field by field.
use Prim.Native.String.{String}
use text.Mathlib.Text.{◌==◌ as str_eq}
use text.Mathlib.TextEquality.{eq_iff}
use ufuk_ai_agent.Prelude.{
  ℕ, ◌≡◌, refl, ◌∙◌, false, Option, none, some, List, [], ◌∷◌, arith, inl, inr, Bool-cases,
  if◌then◌else◌,
}
use ufuk_ai_agent.Prelude.Int.{pos}
use ufuk_ai_agent.Tiers.{TierView}
use ufuk_ai_agent.Json.{Value, int, string, array, object, nil, cons, Fields, end, field, get}
use ufuk_ai_agent.Json.Laws.{get-put}
use ufuk_ai_agent.Upstream.{
  is_forwarded, keep_allowed, strings, plugin, truthy_text, model_chain, is_true, sanitize_request,
  put_models, put_plugins,
}

get-keep_allowed :
    (key : String) (fs : Fields)
    → get key (keep_allowed fs) ≡ (if is_forwarded key then get key fs else none)
unfolding get keep_allowed
get-keep_allowed key end = ground arith
get-keep_allowed key (field k v fs) = ground (arith, eq_iff k key, get-keep_allowed key fs)

-- What the routing sets for a tier: one model, or the chain where there are fallbacks.
abbrev pub one_model : TierView → Option Value
one_model tier = elim tier.fallback_model_ids [
  | [] ↦ some (string tier.upstream_model_id)
  | _ ∷ _ ↦ none
]

abbrev pub chained_models : TierView → Option Value
chained_models tier = elim tier.fallback_model_ids [
  | [] ↦ none
  | _ ∷ _ ↦ some (array (strings (model_chain tier)))
]

abbrev pub router : List String → Option String → Option Value
router chain none = none
router chain (some id) = some (array (cons (object (plugin id chain)) nil))

get-put_plugins_ne :
    (chain : List String) (id : Option String) (key : String) (fs : Fields)
    → str_eq "plugins" key ≡ false
    → get key (put_plugins chain id fs) ≡ get key fs
get-put_plugins_ne chain none key fs h = refl
get-put_plugins_ne chain (some id) key fs h = rw (get-put, h)

get-put_models_ne :
    (tier : TierView) (key : String) (fs : Fields)
    → str_eq "model" key ≡ false
    → str_eq "models" key ≡ false
    → get key (put_models tier fs) ≡ get key fs
get-put_models_ne tier key fs h k = by_fallbacks tier.fallback_model_ids
  where
    by_fallbacks :
        (fallbacks : List String)
        → get key (put_models (record tier { fallback_model_ids = fallbacks }) fs) ≡ get key fs
    by_fallbacks [] = rw (get-put, h)
    by_fallbacks (_ ∷ _) = rw (get-put, k)

-- A field that neither the stream flag nor the token cap sets.
get-sanitize_request_ne :
    (tier : TierView) (max_output_tokens : ℕ) (body : Fields) (key : String)
    → str_eq "stream" key ≡ false
    → str_eq "stream_options" key ≡ false
    → get key (sanitize_request tier max_output_tokens body) ≡ (
        if str_eq "max_tokens" key
        then some (int (pos max_output_tokens))
        else get key (
            put_plugins
              (model_chain tier)
              (truthy_text tier.routing_plugin)
              (put_models tier (keep_allowed body))))
unfolding sanitize_request
get-sanitize_request_ne tier max_output_tokens body key h k =
    elim (Bool-cases (is_true (get "stream" body))) [
      | inl streams ↦ rw (streams, get-put, k, get-put, h, get-put)
      | inr plain ↦ rw (plain, get-put)
    ]

get-put_models :
    (tier : TierView) (fs : Fields)
    → get "model" fs ≡ none
    → get "models" fs ≡ none
    → (get "model" (put_models tier fs) ≡ one_model tier)
      × (get "models" (put_models tier fs) ≡ chained_models tier)
get-put_models tier fs h k = by_fallbacks tier.fallback_model_ids
  where
    by_fallbacks :
        (fallbacks : List String)
        → (get "model" (put_models (record tier { fallback_model_ids = fallbacks }) fs)
            ≡ one_model (record tier { fallback_model_ids = fallbacks }))
          × (get "models" (put_models (record tier { fallback_model_ids = fallbacks }) fs)
              ≡ chained_models (record tier { fallback_model_ids = fallbacks }))
    by_fallbacks [] = (rw get-put, rw (get-put, k))
    by_fallbacks (_ ∷ _) = (rw (get-put, h), rw get-put)

get-put_plugins :
    (chain : List String) (id : Option String) (fs : Fields)
    → get "plugins" fs ≡ none
    → get "plugins" (put_plugins chain id fs) ≡ router chain id
get-put_plugins chain none fs h = h
get-put_plugins chain (some id) fs h = rw get-put

dropped :
    (key : String) (body : Fields) → is_forwarded key ≡ false → get key (keep_allowed body) ≡ none
dropped key body h = rw (get-keep_allowed, h)

-- Whatever the client sends, the payload's `model`, `models`, `plugins` and `max_tokens` are those
-- of the tier's own configuration and the given cap, or missing where the tier has none.
pub sanitize_request_pinned :
    (tier : TierView) (max_output_tokens : ℕ) (body : Fields)
    → let payload = sanitize_request tier max_output_tokens body in
      (get "model" payload ≡ one_model tier)
      × (get "models" payload ≡ chained_models tier)
      × (get "plugins" payload ≡ router (model_chain tier) (truthy_text tier.routing_plugin))
      × (get "max_tokens" payload ≡ some (int (pos max_output_tokens)))
unfolding is_forwarded
sanitize_request_pinned tier max_output_tokens body =
    let kept = keep_allowed body in
    let (one, chain) =
      get-put_models tier kept (dropped "model" body refl) (dropped "models" body refl) in
    (
      get-sanitize_request_ne tier max_output_tokens body "model" refl refl
          ∙ get-put_plugins_ne (model_chain tier) (truthy_text tier.routing_plugin) "model"
              (put_models tier kept) refl
          ∙ one,
      get-sanitize_request_ne tier max_output_tokens body "models" refl refl
          ∙ get-put_plugins_ne (model_chain tier) (truthy_text tier.routing_plugin) "models"
              (put_models tier kept) refl
          ∙ chain,
      get-sanitize_request_ne tier max_output_tokens body "plugins" refl refl
          ∙ get-put_plugins (model_chain tier) (truthy_text tier.routing_plugin)
              (put_models tier kept)
              (get-put_models_ne tier "plugins" kept refl refl ∙ dropped "plugins" body refl),
      get-sanitize_request_ne tier max_output_tokens body "max_tokens" refl refl,
    )

pub sanitize_request_keeps_n :
    (tier : TierView) (max_output_tokens : ℕ) (body : Fields)
    → get "n" (sanitize_request tier max_output_tokens body) ≡ get "n" body
unfolding is_forwarded
sanitize_request_keeps_n tier max_output_tokens body =
    let kept = keep_allowed body in
    get-sanitize_request_ne tier max_output_tokens body "n" refl refl
    ∙ get-put_plugins_ne (model_chain tier) (truthy_text tier.routing_plugin) "n"
        (put_models tier kept) refl
    ∙ get-put_models_ne tier "n" kept refl refl
    ∙ get-keep_allowed "n" body

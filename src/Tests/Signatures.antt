-- ===== src/Tests/Signatures.antt =====
-- Deliveries that are signed, with a digest that is the same for every text.
use text.Mathlib.Text.{◌==◌ as str_eq}
use ufuk_ai_agent.Prelude.{◌≡◌, refl, true, none, some, if◌then◌else◌, arith}
use ufuk_ai_agent.Prelude.Int.{pos}
use ufuk_ai_agent.Text.Split.{split, cut, lacks, is_ascii}
use ufuk_ai_agent.Billing.Signatures.{
  accepted, Digests, Headers, compare_digest, paddle_verify_webhook, dodo_verify_webhook,
}
use ufuk_ai_agent.Billing.Signatures.Accepts.{DodoSigned, dodo_verify_webhook-DodoSigned}
use ufuk_ai_agent.Billing.Signatures.Signed.{paddle_header, paddle_verify_webhook_signed}
use ufuk_ai_agent.Tests.Tiers.{codec}

abbrev digests : Digests
digests = record {
  hex_digest = λ secret s. "ab12";
  base64_digest = λ secret s. some "q80=";
  read_int = λ s. elim (codec.read_int s) [ none ↦ none | some n ↦ some (pos n) ];
}

abbrev headers : Headers
headers name =
    if str_eq name "webhook-id"
    then some "m1"
    else if str_eq name "webhook-timestamp"
    then some "110"
    else if str_eq name "webhook-signature"
    then some "v0,zz v1,q80="
    else if str_eq name "paddle-signature"
    then some (paddle_header "110" "ab12")
    else none

dodo_accepts : dodo_verify_webhook digests 2_500_000 (some "{}") headers "s" ≡ accepted
unfolding dodo_verify_webhook is_ascii split cut compare_digest
dodo_accepts = refl

dodo_verify_webhook-DodoSigned_example : DodoSigned digests 2_500_000 (some "{}") headers "s"
dodo_verify_webhook-DodoSigned_example =
    dodo_verify_webhook-DodoSigned digests 2_500_000 (some "{}") headers "s" dodo_accepts

plain : lacks b';' "110" ≡ true
unfolding lacks
plain = refl

paddle_verify_webhook_signed_example :
    paddle_verify_webhook digests 2_500_000 (some "{}") headers "s" ≡ accepted
paddle_verify_webhook_signed_example =
    paddle_verify_webhook_signed digests 2_500_000 headers "s" "{}" "110" (pos 2) refl refl refl
      plain (omega arith)
      (record {
        truthy = refl;
        ascii = unfold is_ascii in refl;
        lacks_semicolon = unfold lacks in refl;
      })

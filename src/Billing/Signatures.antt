-- ===== src/Billing/Signatures.antt =====
-- `verify_webhook` of stripe.py, dodo.py and paddle.py in evren-backend/app/services/billing_providers/.
-- The digests are parameters; a payload is the text that it decodes to, none where it does not.
pub mod Accepts
pub mod Signed
use Prim.Native.String.{String, ◌++◌}
use text.Mathlib.Text.{◌==◌ as str_eq}
use ufuk_ai_agent.Prelude.{
  ℕ, ◌+◌, ◌-◌, ◌*◌, Bool, true, false, not, ◌&&◌, ◌||◌, ltb, Option, none, some, List, [], ◌∷◌,
  or_default, if◌then◌else◌,
}
use ufuk_ai_agent.Prelude.Int.{ℤ, pos, negsuc, ◌+ℤ◌, ◌-ℤ◌, ltb_ℤ}
use ufuk_ai_agent.Prelude.Options.{Dict}
use ufuk_ai_agent.Models.{microseconds_per_second}
use ufuk_ai_agent.Text.Split.{split, cut, is_ascii}
use ufuk_ai_agent.Upstream.{truthy_text}

-- The end of a check: `rejected` is a `WebhookVerificationError`, `crashed` any other exception.
pub data Check : Type 0 where
  accepted rejected crashed : Check

-- `hex_digest` is the hex HMAC-SHA256 of a text under a secret. `base64_digest` is the Base64 one under
-- the key that `whsec_…` holds, none where that is no Base64. `read_int` is `int` of a text.
pub record Digests : Type 0 where
  pub hex_digest : String → String → String
  pub base64_digest : String → String → Option String
  pub read_int : String → Option ℤ

-- `request.headers.get`
abbrev pub Headers : Type 0
Headers = String → Option String

abbrev pub tolerance_seconds : ℕ
tolerance_seconds = 300

-- `dict(item.split("=", 1) for item in items if "=" in item)`, and its `get`: the last entry wins.
unfoldable pub parts : List String → Dict
parts [] = []
parts (item ∷ items) =
    let rest = parts items in elim (cut b'=' item) [ none ↦ rest | some entry ↦ entry ∷ rest ]

unfoldable pub last_of : String → Dict → Option String
last_of k [] = none
last_of k ((j, v) ∷ d) = elim (last_of k d) [
  | some w ↦ some w
  | none ↦ if str_eq j k then some v else none
]

-- `abs(time.time() - ts) > _TOLERANCE_SECONDS`, the clock in microseconds.
unfoldable pub is_stale : ℕ → ℤ → Bool
is_stale now (pos ts) =
    let at = ts * microseconds_per_second in
    ltb (tolerance_seconds * microseconds_per_second) ((now - at) + (at - now))
is_stale now (negsuc n) =
    ltb (tolerance_seconds * microseconds_per_second) (now + (n + 1) * microseconds_per_second)

-- `hmac.compare_digest` of two texts raises where one is not ASCII; a digest of ours always is.
unfoldable pub compare_digest : String → String → Check
compare_digest expected given =
    if not (is_ascii given) then crashed else if str_eq expected given then accepted else rejected

module _ (h : Digests) where
  -- Stripe: `t=…,v1=…`; inside its `try` an undecodable payload is a failed check.
  unfoldable pub stripe_verify_webhook : Option String → Headers → String → Check
  unfolding parts last_of compare_digest
  stripe_verify_webhook payload headers secret = elim (truthy_text (headers "stripe-signature")) [
    | none ↦ rejected
    | some signature ↦
        let d = parts (split b',' signature) in
        elim payload [
          | none ↦ rejected
          | some body ↦
              compare_digest (h.hex_digest secret (or_default (last_of "t" d) "" ++ ("." ++ body)))
                (or_default (last_of "v1" d) "")
        ]
  ]

  -- After the fields were found: the time, then the digest.
  unfoldable pub paddle_check : ℕ → Option String → String → String → String → Check
  unfolding is_stale compare_digest
  paddle_check now payload secret ts h1 = elim (h.read_int ts) [
    | none ↦ rejected
    | some t ↦ if is_stale now t then rejected else elim payload [
      | none ↦ crashed
      | some body ↦ compare_digest (h.hex_digest secret (ts ++ (":" ++ body))) h1
    ]
  ]

  abbrev pub with_fields : ℕ → Option String → String → Option String → Option String → Check
  with_fields now payload secret none h1 = rejected
  with_fields now payload secret (some ts) none = rejected
  with_fields now payload secret (some ts) (some h1) = paddle_check now payload secret ts h1

  -- Paddle: `ts=…;h1=…`
  unfoldable pub paddle_verify_webhook : ℕ → Option String → Headers → String → Check
  unfolding parts last_of
  paddle_verify_webhook now payload headers secret =
      elim (truthy_text (headers "paddle-signature")) [
        | none ↦ rejected
        | some signature ↦
            let d = parts (split b';' signature) in
            with_fields now payload secret (truthy_text (last_of "ts" d))
              (truthy_text (last_of "h1" d))
      ]

-- `[part.split(",", 1)[1] for part in parts if "," in part]`
unfoldable pub candidates : List String → List String
candidates [] = []
candidates (part ∷ parts) =
    let rest = candidates parts in elim (cut b',' part) [ none ↦ rest | some (v, sig) ↦ sig ∷ rest ]

-- `any(compare_digest(…))`: the first that matches, or raises, ends it.
abbrev pub or_next : Check → Check → Check
or_next accepted rest = accepted
or_next rejected rest = rest
or_next crashed rest = crashed

unfoldable pub any_digest : String → List String → Check
any_digest expected [] = rejected
any_digest expected (c ∷ cs) =
    let rest = any_digest expected cs in or_next (compare_digest expected c) rest

module _ (h : Digests) where
  unfoldable pub dodo_check : ℕ → Option String → String → String → String → String → Check
  unfolding is_stale any_digest candidates
  dodo_check now payload secret id timestamp signature = elim (h.read_int timestamp) [
    | none ↦ rejected
    | some t ↦ if is_stale now t then rejected else elim payload [
      | none ↦ crashed
      | some body ↦ elim (h.base64_digest secret (id ++ ("." ++ (timestamp ++ ("." ++ body))))) [
        | none ↦ crashed
        | some expected ↦ any_digest expected (candidates (split b' ' signature))
      ]
    ]
  ]

  abbrev pub with_headers :
      ℕ → Option String → String → Option String → Option String → Option String → Check
  with_headers now payload secret none timestamp signature = rejected
  with_headers now payload secret (some id) none signature = rejected
  with_headers now payload secret (some id) (some timestamp) none = rejected
  with_headers now payload secret (some id) (some timestamp) (some signature) =
      dodo_check now payload secret id timestamp signature

  -- Dodo: the Standard Webhooks headers.
  unfoldable pub dodo_verify_webhook : ℕ → Option String → Headers → String → Check
  unfolding dodo_check
  dodo_verify_webhook now payload headers secret =
      with_headers now payload secret (truthy_text (headers "webhook-id"))
        (truthy_text (headers "webhook-timestamp")) (truthy_text (headers "webhook-signature"))

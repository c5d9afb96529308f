-- ===== src/Billing/Signatures/Signed.antt =====
-- A delivery that is signed as Paddle documents is accepted.
use Prim.Native.Char.{Char}
use Prim.Native.String.{String, ◌++◌}
use ufuk_ai_agent.Prelude.{◌≡◌, ◌∙◌, ap, refl, true, some, [], ◌∷◌, ℕ}
use ufuk_ai_agent.Prelude.Int.{ℤ}
use ufuk_ai_agent.Text.Split.{
  split, lacks, is_ascii, split-lacks, split-append, cut-append, lacks-append, append-cons,
}
use text.Mathlib.TextEquality.{eq_iff}
use ufuk_ai_agent.Upstream.{truthy_text}
use ufuk_ai_agent.Billing.Signatures.{
  accepted, Digests, Headers, parts, last_of, compare_digest, paddle_check, paddle_verify_webhook,
}
use ufuk_ai_agent.Billing.Signatures.Accepts.{Fresh, Fresh-is_stale}

-- A digest is hexadecimal: not empty, ASCII, and without a semicolon.
pub record IsDigest (s : String) : Type 0 where
  pub truthy : truthy_text (some s) ≡ some s
  pub ascii : is_ascii s ≡ true
  pub lacks_semicolon : lacks b';' s ≡ true

-- `ts=<unix>;h1=<hex>`
abbrev pub paddle_header : String → String → String
paddle_header ts h1 = ("ts" ++ String.◌∷◌ "=" ts) ++ String.◌∷◌ ";" ("h1" ++ String.◌∷◌ "=" h1)

split-paddle_header :
    (ts h1 : String)
    → lacks b';' ts ≡ true
    → lacks b';' h1 ≡ true
    → split b';' (paddle_header ts h1)
      ≡ ("ts" ++ String.◌∷◌ "=" ts) ∷ ("h1" ++ String.◌∷◌ "=" h1) ∷ []
split-paddle_header ts h1 p q =
    split-append b';' ("ts" ++ String.◌∷◌ "=" ts) ";" ("h1" ++ String.◌∷◌ "=" h1)
      (lacks-append b';' "ts" (String.◌∷◌ "=" ts) (unfold lacks in refl) (unfold lacks in p)) refl
    ∙ ap (λ pieces. ("ts" ++ String.◌∷◌ "=" ts) ∷ pieces)
        (split-lacks b';' ("h1" ++ String.◌∷◌ "=" h1)
          (lacks-append b';' "h1" (String.◌∷◌ "=" h1) (unfold lacks in refl) (unfold lacks in q)))

truthy_append :
    (c : Char) (s t : String)
    → truthy_text (some (String.◌∷◌ c s ++ t)) ≡ some (String.◌∷◌ c s ++ t)
truthy_append c s t = rw (append-cons c s t) refl

truthy_header :
    (ts h1 : String) → truthy_text (some (paddle_header ts h1)) ≡ some (paddle_header ts h1)
truthy_header ts h1 =
    rw (append-cons "t" "s" (String.◌∷◌ "=" ts))
      (truthy_append "t" ("s" ++ String.◌∷◌ "=" ts) (String.◌∷◌ ";" ("h1" ++ String.◌∷◌ "=" h1)))

parts-pieces :
    (ts h1 : String)
    → parts (("ts" ++ String.◌∷◌ "=" ts) ∷ ("h1" ++ String.◌∷◌ "=" h1) ∷ [])
      ≡ ("ts", ts) ∷ ("h1", h1) ∷ []
unfolding parts
parts-pieces ts h1 =
    rw
      (
        parts,
        cut-append b'=' "ts" "=" ts (unfold lacks in refl) refl,
        cut-append b'=' "h1" "=" h1 (unfold lacks in refl) refl,
      )
      refl

compare_digest_self : (s : String) → is_ascii s ≡ true → compare_digest s s ≡ accepted
unfolding compare_digest
compare_digest_self s h = rw (h, (eq_iff s s).1 refl) refl

module _ (h : Digests) (now : ℕ) (headers : Headers) (secret body ts : String) (time : ℤ) where
  abbrev digest : String
  digest = h.hex_digest secret (ts ++ (":" ++ body))

  checks :
      h.read_int ts ≡ some time
      → Fresh now time
      → is_ascii digest ≡ true
      → paddle_check h now (some body) secret ts digest ≡ accepted
  unfolding paddle_check
  checks reads fresh ascii =
      rw (paddle_check, reads, Fresh-is_stale now time fresh) (compare_digest_self digest ascii)

  -- A delivery whose header has the documented form, a time and the digest of the time and the
  -- payload under the secret, is accepted by Paddle's check, where the time is a text for an
  -- integer within five minutes of the clock, not empty and without a semicolon, and the digest is
  -- ASCII, not empty and without a semicolon.
  pub paddle_verify_webhook_signed :
      headers "paddle-signature" ≡ some (paddle_header ts digest)
      → h.read_int ts ≡ some time
      → truthy_text (some ts) ≡ some ts
      → lacks b';' ts ≡ true
      → Fresh now time
      → IsDigest digest
      → paddle_verify_webhook h now (some body) headers secret ≡ accepted
  unfolding paddle_verify_webhook last_of
  paddle_verify_webhook_signed given reads nonempty plain fresh good =
      rw
        (
          paddle_verify_webhook,
          given,
          truthy_header ts digest,
          split-paddle_header ts digest plain good.lacks_semicolon,
          parts-pieces ts digest,
        )
        (rw (nonempty, good.truthy) (checks reads fresh good.ascii))

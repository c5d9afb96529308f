-- ===== src/Billing/Signatures/Accepts.antt =====
-- What an accepted delivery has shown, and that a delivery signed as documented is accepted.
use Prim.Native.String.{String, ◌++◌}
use text.Mathlib.Text.{◌==◌ as str_eq}
use text.Mathlib.TextEquality.{eq_iff}
use ufuk_ai_agent.Prelude.{
  ℕ, ◌+◌, ◌*◌, ◌≤◌, ◌≡◌, sym, refl, inl, inr, ◌⊎◌, Bool, true, false, not, Option, none, some, List,
  [], ◌∷◌, arith, if◌then◌else◌,
}
use ufuk_ai_agent.Prelude.Int.{ℤ, pos, negsuc}
use ufuk_ai_agent.Models.{microseconds_per_second}
use ufuk_ai_agent.Text.Split.{split, is_ascii}
use ufuk_ai_agent.Upstream.{truthy_text}
use ufuk_ai_agent.Billing.Signatures.{
  Check, accepted, rejected, crashed, Digests, Headers, tolerance_seconds, is_stale, compare_digest,
  candidates, or_next, any_digest, dodo_check, with_headers, dodo_verify_webhook,
}

-- A time in seconds within five minutes of the clock.
abbrev pub Fresh : ℕ → ℤ → Type 0
Fresh now (pos ts) =
    (now ≤ (ts + tolerance_seconds) * microseconds_per_second)
    × (ts * microseconds_per_second ≤ now + tolerance_seconds * microseconds_per_second)
Fresh now (negsuc n) =
    now + (n + 1) * microseconds_per_second ≤ tolerance_seconds * microseconds_per_second

is_stale-Fresh : (now : ℕ) (t : ℤ) → is_stale now t ≡ false → Fresh now t
unfolding is_stale
is_stale-Fresh now (pos ts) h = (ground arith, ground arith)
is_stale-Fresh now (negsuc n) h = ground arith

pub Fresh-is_stale : (now : ℕ) (t : ℤ) → Fresh now t → is_stale now t ≡ false
unfolding is_stale
Fresh-is_stale now (pos ts) (lo, hi) = ground arith
Fresh-is_stale now (negsuc n) h = ground arith

rejected_no : Path Check rejected accepted → ⊥
rejected_no e = cc

crashed_no : Path Check crashed accepted → ⊥
crashed_no e = cc

compare_digest-eq :
    (expected given : String) → compare_digest expected given ≡ accepted → given ≡ expected
unfolding compare_digest
compare_digest-eq expected given h = by_test (is_ascii given) (str_eq expected given) refl h
  where
    by_test :
        (b m : Bool)
        → str_eq expected given ≡ m
        → (if not b then crashed else if m then accepted else rejected) ≡ accepted
        → given ≡ expected
    by_test false m e k = absurd (crashed_no k)
    by_test true false e k = absurd (rejected_no k)
    by_test true true e k = sym ((eq_iff expected given).0 e)

-- The candidate that a list of signatures was accepted by.
abbrev pub Holds : String → List String → Type 0
Holds s [] = ⊥
Holds s (c ∷ cs) = (c ≡ s) ⊎ Holds s cs

any_digest-Holds :
    (expected : String) (cs : List String) → any_digest expected cs ≡ accepted → Holds expected cs
unfolding any_digest
any_digest-Holds expected [] h = absurd (rejected_no h)
any_digest-Holds expected (c ∷ cs) h =
    by_first (any_digest-Holds expected cs) (compare_digest expected c) refl h
  where
    by_first :
        (any_digest expected cs ≡ accepted → Holds expected cs)
        → (k : Check) → compare_digest expected c ≡ k
        → or_next k (any_digest expected cs) ≡ accepted
        → (c ≡ expected) ⊎ Holds expected cs
    by_first rest accepted e a = inl (compare_digest-eq expected c e)
    by_first rest rejected e a = inr (rest a)
    by_first rest crashed e a = absurd (crashed_no a)

module _ (h : Digests) (now : ℕ) (payload : Option String) (headers : Headers)
    (secret : String) where
  -- The three headers, a fresh time, and a signature of the id, the time and the body.
  pub record DodoSigned : Type 0 where
    pub id : String
    pub timestamp : String
    pub signature : String
    pub time : ℤ
    pub body : String
    pub digest : String
    pub has_id : headers "webhook-id" ≡ some id
    pub has_timestamp : headers "webhook-timestamp" ≡ some timestamp
    pub has_signature : headers "webhook-signature" ≡ some signature
    pub reads : h.read_int timestamp ≡ some time
    pub fresh : Fresh now time
    pub decodes : payload ≡ some body
    pub digests : h.base64_digest secret (id ++ ("." ++ (timestamp ++ ("." ++ body)))) ≡ some digest
    pub held : Holds digest (candidates (split b' ' signature))

truthy_text_same : (o : Option String) (s : String) → truthy_text o ≡ some s → o ≡ some s
truthy_text_same none s e = cc
truthy_text_same (some String.[]) s e = cc
truthy_text_same (some (String.◌∷◌ c r)) s e = e

module _ (h : Digests) (now : ℕ) (payload : Option String) (headers : Headers)
    (secret : String) where
  dodo_check-DodoSigned :
      (id timestamp signature : String)
      → headers "webhook-id" ≡ some id
      → headers "webhook-timestamp" ≡ some timestamp
      → headers "webhook-signature" ≡ some signature
      → dodo_check h now payload secret id timestamp signature ≡ accepted
      → DodoSigned h now payload headers secret
  unfolding dodo_check
  dodo_check-DodoSigned id timestamp signature has_id has_timestamp has_signature a =
      by_time (h.read_int timestamp) refl a
    where
      signed : String → String
      signed body = id ++ ("." ++ (timestamp ++ ("." ++ body)))

      judge : Option String → Check
      judge key = elim key [
        | none ↦ crashed
        | some expected ↦ any_digest expected (candidates (split b' ' signature))
      ]

      decode : Option String → Check
      decode p = elim p [
        | none ↦ crashed
        | some body ↦ judge (h.base64_digest secret (signed body))
      ]

      by_digest :
          (t : ℤ)
          → h.read_int timestamp ≡ some t
          → is_stale now t ≡ false
          → (body : String) → payload ≡ some body
          → (o : Option String) → h.base64_digest secret (signed body) ≡ o
          → judge o ≡ accepted
          → DodoSigned h now payload headers secret
      by_digest t r f body p none e k = absurd (crashed_no k)
      by_digest t r f body p (some digest) e k = record {
        id = id;
        timestamp = timestamp;
        signature = signature;
        time = t;
        body = body;
        digest = digest;
        has_id = has_id;
        has_timestamp = has_timestamp;
        has_signature = has_signature;
        reads = r;
        fresh = is_stale-Fresh now t f;
        decodes = p;
        digests = e;
        held = any_digest-Holds digest (candidates (split b' ' signature)) k;
      }

      by_body :
          (t : ℤ)
          → h.read_int timestamp ≡ some t
          → is_stale now t ≡ false
          → (p : Option String) → payload ≡ p
          → decode p ≡ accepted
          → DodoSigned h now payload headers secret
      by_body t r f none p k = absurd (crashed_no k)
      by_body t r f (some body) p k =
          by_digest t r f body p (h.base64_digest secret (signed body)) refl k

      by_clock :
          (t : ℤ)
          → h.read_int timestamp ≡ some t
          → (b : Bool) → is_stale now t ≡ b
          → (if b then rejected else decode payload) ≡ accepted
          → DodoSigned h now payload headers secret
      by_clock t r true f k = absurd (rejected_no k)
      by_clock t r false f k = by_body t r f payload refl k

      by_time :
          (o : Option ℤ)
          → h.read_int timestamp ≡ o
          → Path Check
              (elim o [
                | none ↦ rejected
                | some t ↦ if is_stale now t then rejected else decode payload
              ])
              accepted
          → DodoSigned h now payload headers secret
      by_time none r k = absurd (rejected_no k)
      by_time (some t) r k = by_clock t r (is_stale now t) refl k

  -- A delivery that Dodo's check accepts has the three headers, its time is an integer within five
  -- minutes of the clock, its payload decodes, and one of its signatures is the digest of the id,
  -- the time and the payload under the secret.
  pub dodo_verify_webhook-DodoSigned :
      dodo_verify_webhook h now payload headers secret ≡ accepted
      → DodoSigned h now payload headers secret
  unfolding dodo_verify_webhook
  dodo_verify_webhook-DodoSigned a =
      by_headers (truthy_text (headers "webhook-id")) (truthy_text (headers "webhook-timestamp"))
        (truthy_text (headers "webhook-signature")) refl refl refl a
    where
      by_headers :
          (i t s : Option String)
          → truthy_text (headers "webhook-id") ≡ i
          → truthy_text (headers "webhook-timestamp") ≡ t
          → truthy_text (headers "webhook-signature") ≡ s
          → with_headers h now payload secret i t s ≡ accepted
          → DodoSigned h now payload headers secret
      by_headers none t s ei et es k = absurd (rejected_no k)
      by_headers (some id) none s ei et es k = absurd (rejected_no k)
      by_headers (some id) (some time) none ei et es k = absurd (rejected_no k)
      by_headers (some id) (some time) (some signature) ei et es k =
          dodo_check-DodoSigned id time signature (truthy_text_same _ id ei)
            (truthy_text_same _ time et) (truthy_text_same _ signature es) k

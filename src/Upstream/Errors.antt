-- ===== src/Upstream/Errors.antt =====
-- What a client sees of an upstream error: `normalize_upstream_error` of upstream.py.
use Prim.Native.String.{String}
use ufuk_ai_agent.Prelude.{
  ℕ, ◌≡◌, refl, sym, Bool, true, false, ◌||◌, ◌==◌, Option, none, some, is_some, [], ◌∷◌, any,
  arith, inl, inr, Bool-cases,
}
use ufuk_ai_agent.Prelude.Int.{ℤ}
use ufuk_ai_agent.Errors.{ApiError, Outcome, ok}
use ufuk_ai_agent.Json.{Value}
use ufuk_ai_agent.Upstream.{
  Headers, HeaderNumber, infinite, whole, not_a_number, rate_limit_error, normalize_upstream_error,
  by_reset, header_reset, find_body_resets_at,
}

abbrev pub is_infinite : Option HeaderNumber → Bool
is_infinite (some infinite) = true
is_infinite (some (whole _)) = false
is_infinite (some not_a_number) = false
is_infinite none = false

-- What a client may see, by how the normalisation ended.
abbrev pub Normal : ℕ → Headers → Outcome ApiError → Type 0
Normal status_code headers (Outcome.ok e) =
    (any (λ c. e.status_code == c) (400 ∷ 429 ∷ 502 ∷ 504 ∷ []) ≡ true)
    × (is_some e.retry_after ≡ (status_code == 429))
    × ((e.status_code == 429) ≡ (status_code == 429))
Normal status_code headers (Outcome.raise _) = ⊥
Normal status_code headers Outcome.crash =
    (status_code ≡ 429) × (is_infinite headers.retry_after ≡ true)

module _ (str : Value → String) (parse_date : String → Option ℤ) where
  rate_limit_error-Normal :
      (now : ℤ) (parsed : Option Value) (headers : Headers)
      → Normal 429 headers (rate_limit_error parse_date now parsed headers)
  unfolding rate_limit_error
  rate_limit_error-Normal now parsed headers = by_header headers.retry_after
    where
      resets : (t : Option ℤ) → Normal 429 headers (ok (by_reset parse_date now t))
      resets none = (refl, refl, refl)
      resets (some t) = (refl, refl, refl)

      by_header :
          (h : Option HeaderNumber)
          → Normal 429
              (record headers { retry_after = h })
              (rate_limit_error parse_date now parsed (record headers { retry_after = h }))
      by_header none =
          resets (header_reset parse_date headers (find_body_resets_at parse_date parsed))
      by_header (some not_a_number) =
          resets (header_reset parse_date headers (find_body_resets_at parse_date parsed))
      by_header (some infinite) = (refl, refl)
      by_header (some (whole n)) = (refl, refl, refl)

  -- For any reply of the upstream, the error for the client has status 400, 429, 502 or 504,
  -- carries Retry-After exactly where its status is 429, and has status 429 exactly where the
  -- upstream's has. An exception in its place comes only of a 429 whose Retry-After is infinite.
  pub normalize_upstream_error-Normal :
      (now : ℤ) (status_code : ℕ) (parsed : Option Value) (headers : Headers)
      → Normal status_code headers
          (normalize_upstream_error str parse_date now status_code parsed headers)
  unfolding normalize_upstream_error
  normalize_upstream_error-Normal now status_code parsed headers =
      elim (Bool-cases (status_code == 429)) [
        | inl limited ↦
            let e : status_code ≡ 429 = ground arith in
            rw e (rate_limit_error-Normal now parsed headers)
        | inr other ↦ elim (Bool-cases (status_code == 400)) [
          | inl bad ↦ rw (normalize_upstream_error, bad, other) (refl, refl, refl)
          | inr fine ↦ elim (Bool-cases (status_code == 401 || status_code == 403)) [
            | inl barred ↦ rw (normalize_upstream_error, fine, barred, other) (refl, refl, refl)
            | inr open_ ↦ elim (Bool-cases (status_code == 408)) [
              | inl late ↦
                  rw (normalize_upstream_error, fine, open_, other, late)
                    (refl, sym other, sym other)
              | inr rest ↦
                  rw (normalize_upstream_error, fine, open_, other, rest)
                    (refl, sym other, sym other)
            ]
          ]
        ]
      ]

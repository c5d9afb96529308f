-- ===== src/Errors.antt =====
-- `ApiError` of evren-backend/app/errors.py, and a handler's outcome: a value or a raised error.
use Prim.Native.String.{String}
use ufuk_ai_agent.Prelude.{ℕ, Option, none, some}
use ufuk_ai_agent.Prelude.Int.{ℤ}

-- The fields that `quota_hint` and the rate limit put into `extra`.
pub record Extra : Type 0 where
  pub reset_at : Option ℕ
  pub upgrade_to : Option String
  pub resets_at : Option ℤ

abbrev pub no_extra : Extra
no_extra = record { reset_at = none; upgrade_to = none; resets_at = none }

-- `message` and `type` are texts for the reader of the response; `retry_after` is the only header.
pub record ApiError : Type 0 where
  pub status_code : ℕ
  pub code : String
  pub retry_after : Option ℕ
  pub extra : Extra

abbrev pub api_error : ℕ → String → ApiError
api_error status_code code = record {
  status_code = status_code;
  code = code;
  retry_after = none;
  extra = no_extra;
}

-- `exc.extra = {**(exc.extra or {}), **hint}`: the hint's keys win.
abbrev pub prefer {ℓ} : {A : Type ℓ} → Option A → Option A → Option A
prefer none b = b
prefer (some a) b = some a

unfoldable pub with_hint : Extra → ApiError → ApiError
with_hint hint e = record e {
  extra = record {
    reset_at = prefer hint.reset_at e.extra.reset_at;
    upgrade_to = prefer hint.upgrade_to e.extra.upgrade_to;
    resets_at = prefer hint.resets_at e.extra.resets_at;
  };
}

-- What a coroutine ends with; `crash` is any exception that is no `ApiError`.
pub data Outcome {ℓ} (A : Type ℓ) : Type ℓ where
  ok : A → Outcome A
  raise : ApiError → Outcome A
  crash : Outcome A

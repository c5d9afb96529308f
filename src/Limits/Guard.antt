-- ===== src/Limits/Guard.antt =====
-- evren-backend/app/services/session_guard.py: `SessionGuard`, the in-flight slots of an account and
-- the soft detection of shared accounts.
pub mod Slots
use Prim.Native.String.{String}
use ufuk_ai_agent.Prelude.{
  ℕ, ◌+◌, ◌*◌, ◌/◌, Bool, true, false, Option, none, some, leb, if◌then◌else◌,
}
use ufuk_ai_agent.Prelude.Int.{ℤ, pos, negsuc, ltb_ℤ, eq_ℤ}
use ufuk_ai_agent.Errors.{ApiError, Outcome, ok, raise, api_error}
use ufuk_ai_agent.Models.{microseconds_per_second}
use ufuk_ai_agent.Redis.{Redis, Key}

abbrev pub concurrency_slot_ttl_seconds : ℕ
concurrency_slot_ttl_seconds = 600

abbrev pub anomaly_window_seconds : ℕ
anomaly_window_seconds = 3600

abbrev pub distinct_client_flag_threshold : ℕ
distinct_client_flag_threshold = 5

abbrev pub burst_flag_threshold : ℕ
burst_flag_threshold = 500

abbrev pub concurrency_error : ApiError
concurrency_error = record (api_error 429 "concurrency_limit_exceeded") { retry_after = some 5 }

-- The two reasons that `observe` formats, with their counts.
pub data FlagReason : Type 0 where
  distinct_clients : ℕ → FlagReason
  burst_requests : ℤ → FlagReason

-- `_client_hash`; `digest` is the first sixteen digits of the SHA-256 of user and client.
unfoldable pub client_hash : (ℕ → String → String) → ℕ → Option String → String
client_hash digest user none = "unknown"
client_hash digest user (some String.[]) = "unknown"
client_hash digest user (some (String.◌∷◌ c s)) = digest user (String.◌∷◌ c s)

-- `_anomaly_bucket`
unfoldable pub anomaly_bucket : ℕ → ℕ → ℕ
anomaly_bucket window_seconds now = now / (microseconds_per_second * window_seconds)

module _ (R : Redis) where
  -- `if count == 1: await self._redis.expire(…)`
  unfoldable pub start_ttl : R.Store → Key → ℤ → R.Store
  start_ttl s key count =
      if eq_ℤ count (pos 1) then R.expire s key concurrency_slot_ttl_seconds else s

  unfoldable pub acquire_slot : R.Store → ℕ → Option ℕ → Outcome Bool × R.Store
  acquire_slot s user none = (ok false, s)
  acquire_slot s user (some limit) =
      let key = Key.inflight user in
      let (count, s₁) = R.incrby s key (pos 1) in
      let s₂ = start_ttl s₁ key count in
      if ltb_ℤ (pos limit) count
      then (raise concurrency_error, (R.incrby s₂ key (negsuc 0)).1)
      else (ok true, s₂)

  unfoldable pub release_slot : R.Store → ℕ → Bool → R.Store
  release_slot s user false = s
  release_slot s user true =
      let key = Key.inflight user in
      let (remaining, s₁) = R.incrby s key (negsuc 0) in
      if ltb_ℤ remaining (pos 0) then R.set s₁ key (pos 0) concurrency_slot_ttl_seconds else s₁

  -- `observe`, with the hash of the client and the thresholds; the five pipelined commands in order.
  unfoldable pub observe : R.Store → ℕ → String → ℕ → ℕ → ℕ → ℕ → Option FlagReason × R.Store
  unfolding anomaly_bucket
  observe s user hash window_seconds distinct_threshold burst_threshold now =
      let clients = Key.anomaly_clients user (anomaly_bucket window_seconds now) in
      let counter = Key.anomaly_count user (anomaly_bucket window_seconds now) in
      let s₁ = R.sadd s clients hash in
      let distinct = R.scard s₁ clients in
      let (count, s₂) = R.incrby s₁ counter (pos 1) in
      let s₃ = R.expire s₂ clients (window_seconds + 60) in
      let s₄ = R.expire s₃ counter (window_seconds + 60) in
      (
        if leb distinct_threshold distinct
            then some (distinct_clients distinct)
            else if ltb_ℤ count (pos burst_threshold)
            then none
            else some (burst_requests count),
        s₄,
      )

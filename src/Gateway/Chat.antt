-- ===== src/Gateway/Chat.antt =====
-- `chat_completions` and `_stream_response`: the checks that admit a request, its reservation, the
-- exchange with the upstream and the request's end. The clock's readings and the new ids are given by
-- `Times`; the tier is what `get_tier` finds, and `lines` are the lines of a stream that arrive before
-- it ends or the client leaves.
pub mod Admission
pub mod Slot
pub mod Admits
pub mod Admit
pub mod Active
pub mod Service
pub mod Completion
use Prim.Native.String.{String}
use text.Mathlib.Text.{◌==◌ as str_eq}
use ufuk_ai_agent.Prelude.{
  ℕ, ◌+◌, ◌*◌, Bool, true, false, not, ◌&&◌, ◌==◌, Option, none, some, List, [], ◌∷◌, ◌++◌, any,
  min, or_default, if◌then◌else◌,
}
use ufuk_ai_agent.Prelude.Int.{ℤ, pos, pos_part}
use ufuk_ai_agent.Errors.{ApiError, Outcome, ok, raise, crash, api_error, no_extra}
use ufuk_ai_agent.Action.{Action, pure, or_raise, ◌>>=◌, ◌>>◌}
use ufuk_ai_agent.Models.{Plan, Subscription, settled}
use ufuk_ai_agent.Tiers.{TierView}
use ufuk_ai_agent.Json.{Value, Fields, get, as_dict}
use ufuk_ai_agent.Redis.{Redis, Key}
use ufuk_ai_agent.Limits.Breaker
use ufuk_ai_agent.Limits.Breaker.{Breaker, allow_request, record_failure}
use ufuk_ai_agent.Limits.Guard.{
  FlagReason, acquire_slot, release_slot, observe, anomaly_window_seconds,
  distinct_client_flag_threshold, burst_flag_threshold,
}
use ufuk_ai_agent.Limits.Rate.{check_rate_limit}
use ufuk_ai_agent.Subscriptions.{ActiveSubscription, period_key, get_active_or_rolled_subscription}
use ufuk_ai_agent.Upstream.{
  Attempt, Reply, Headers, refused, timeout, http_error, response, send_with_retry,
  sanitize_request, normalize_upstream_error, is_true, truthy_text,
}
use ufuk_ai_agent.Gateway.Response.{Reading, read_body, client_body}
use ufuk_ai_agent.Gateway.Scanner.{
  Scanner, fresh_scanner, feed_lines, partial_reading, record_breaker_outcome,
}
use ufuk_ai_agent.Gateway.World.{World, Request, Draw}
use ufuk_ai_agent.Gateway.Reserve.{Ticket, reserve}
use ufuk_ai_agent.Gateway.Finalize.{finalize_event, fail_event}

-- The whole of what a request reads and changes. `flags` are the accounts flagged for review.
pub record Server (R : Redis) : Type 0 where
  pub world : World R
  pub subs : List Subscription
  pub flags : List (ℕ × FlagReason)
  pub breaker : Breaker

-- The settings, the plans, and the parts of other libraries.
pub record Setup : Type 0 where
  pub plans : List Plan
  pub global_rate_limit_per_minute : ℕ
  pub breaker_config : Breaker.Config
  pub encoder : Option (String → ℕ)
  pub str : Value → String
  pub parse_date : String → Option ℤ
  pub upstream : Fields → ℕ → Attempt

-- `body_breaks` is whether reading the body of a streamed refusal fails.
pub record Input : Type 0 where
  pub request : Request
  pub body : Fields
  pub tier : Option TierView
  pub client_hash : String
  pub security_flagged : Bool
  pub lines : List (Option Value)
  pub body_breaks : Bool

pub record Times : Type 0 where
  pub now : ℕ
  pub later : ℕ
  pub fresh : ℕ
  pub stamp : ℕ
  pub rate_now : ℕ
  pub breaker_now : ℕ
  pub guard_now : ℕ
  pub draw : Draw
  pub outcome_now : ℕ
  pub error_now : ℕ
  pub latency_ms : ℕ

-- A request between its reservation and its end. `held` is `request.state.guard_slot_held`.
pub record Admitted : Type 0 where
  pub active : ActiveSubscription
  pub tier : TierView
  pub ticket : Ticket
  pub held : Bool

-- The answer: a body, or a stream and whether its lines were scanned to the end.
pub data Answer : Type 0 where
  json : Fields → Answer
  stream : Bool → Answer

-- The tier, if the plan allows it and it is no internal one.
unfoldable pub permitted_tier : Option TierView → Plan → Option TierView
permitted_tier none plan = none
permitted_tier (some tier) plan =
    if any (str_eq tier.alias) plan.allowed_tier_aliases && not tier.is_internal
    then some tier
    else none

-- The reading that settles a stream: `selected_model_id or tier.upstream_model_id`.
unfoldable pub stream_reading : TierView → ℕ → Scanner → Reading
unfolding partial_reading
stream_reading tier est_prompt s = record (partial_reading est_prompt s) {
  selected_model_id = some (or_default (truthy_text s.selected_model_id) tier.upstream_model_id);
}

abbrev pub too_many : Option ℤ → (ℕ → ApiError) → Outcome (Unit {0})
too_many none e = ok tt
too_many (some t) e = raise (e (pos_part t))

abbrev pub flag_if : Bool → ℕ → Option FlagReason → List (ℕ × FlagReason) → List (ℕ × FlagReason)
flag_if flagged user none flags = flags
flag_if true user (some reason) flags = flags
flag_if false user (some reason) flags = (user, reason) ∷ flags

abbrev pub global_error : ℕ → ApiError
global_error t = record (api_error 429 "rate_limited") { retry_after = some t }

abbrev pub user_error : Times → ℕ → ApiError
user_error d t = record (api_error 429 "rate_limited") {
  retry_after = some t;
  extra = record no_extra { resets_at = some (pos (d.rate_now + t * 1_000_000)) };
}

abbrev pub reply_to : Setup → Input → Admitted → Reply
reply_to c q h =
    (send_with_retry (c.upstream (sanitize_request h.tier h.ticket.max_tokens q.body))).0

module _ {R : Redis} where
  abbrev pub with_store : R.Store → Server R → Server R
  with_store s v = record v { world = record v.world { store = s } }

  unfoldable pub subscribe : Setup → Input → Times → Action (Server R) ActiveSubscription
  subscribe c q d v =
      let (found, subs) =
        get_active_or_rolled_subscription c.plans v.subs q.request.user d.now d.later d.fresh
          d.stamp in
      or_raise found (api_error 403 "subscription_inactive") (record v { subs = subs })

  unfoldable pub limit_rate : Key → ℕ → (ℕ → ApiError) → Action (Server R) (Unit {0})
  unfolding check_rate_limit
  limit_rate key limit e v =
      let (answer, s) = check_rate_limit R v.world.store key limit 60 in
      (too_many answer e, with_store s v)

  -- `breaker.allow_request`
  unfoldable pub pass_breaker : Setup → Times → Action (Server R) (Unit {0})
  pass_breaker c d v =
      let (allowed, breaker) = allow_request c.breaker_config v.breaker d.breaker_now in
      (
        if allowed
            then ok tt
            else raise (record (api_error 503 "upstream_unavailable") { retry_after = some 30 }),
        record v { breaker = breaker },
      )

  unfoldable pub hold_slot : Input → ActiveSubscription → Action (Server R) Bool
  hold_slot q a v =
      let (r, s) = acquire_slot R v.world.store q.request.user a.plan.max_concurrent_requests in
      (r, with_store s v)

  -- `guard.observe` and `_flag_user_for_review`
  unfoldable pub watch : Input → Times → Action (Server R) (Unit {0})
  watch q d v =
      let (reason, s) =
        observe R v.world.store q.request.user q.client_hash anomaly_window_seconds
          distinct_client_flag_threshold burst_flag_threshold d.guard_now in
      (
        ok tt,
        record (with_store s v) {
          flags = flag_if q.security_flagged q.request.user reason v.flags;
        },
      )

  abbrev pub let_go : ℕ → Bool → World R → World R
  let_go user held w = record w { store = release_slot R w.store user held }

  -- `_reserve`, with the slot given back where it raises.
  unfoldable pub reserve_or_let_go :
      Setup → Input → Times → ActiveSubscription → TierView → Bool → Action (Server R) Admitted
  unfolding reserve
  reserve_or_let_go c q d a tier held v =
      let cap = min tier.max_output_tokens a.plan.max_output_tokens_per_request in
      let (r, w) = reserve R c.encoder q.request a tier cap d.draw v.world in
      elim r [
        | ok t ↦ (
          ok (record { active = a; tier = tier; ticket = t; held = held }),
          record v { world = w },
        )
        | raise e ↦ (raise e, record v { world = let_go q.request.user held w })
        | crash ↦ (crash, record v { world = let_go q.request.user held w })
      ]

  -- `chat_completions` up to the reservation.
  unfoldable pub admit : Setup → Input → Times → Action (Server R) Admitted
  unfolding permitted_tier subscribe limit_rate pass_breaker hold_slot watch reserve_or_let_go
  admit c q d = do
    active ← subscribe c q d
    tier ← or_raise (permitted_tier q.tier active.plan) (api_error 403 "model_not_allowed")
    limit_rate Key.global_rpm c.global_rate_limit_per_minute global_error
    limit_rate (Key.rpm q.request.user (period_key active)) active.plan.requests_per_minute
        (user_error d)
    pass_breaker c d
    held ← hold_slot q active
    watch q d
    reserve_or_let_go c q d active tier held

  -- `_fail_event` and the raise after it.
  unfoldable pub give_up : Input → Times → Admitted → ApiError → Action (Server R) Answer
  unfolding fail_event
  give_up q d h e v =
      let (_, w) = fail_event R q.request h.active h.tier h.ticket d.latency_ms h.held v.world in
      (raise e, record v { world = w })

  -- The same where the exchange itself failed.
  abbrev pub give_up_failed : Setup → Input → Times → Admitted → ApiError → Action (Server R) Answer
  give_up_failed c q d h e v =
      give_up q d h e
        (record v { breaker = record_failure c.breaker_config v.breaker d.outcome_now })

  unfoldable pub settle : Input → Times → Admitted → Reading → Answer → Action (Server R) Answer
  unfolding finalize_event
  settle q d h r answer v =
      let (_, w) =
        finalize_event R q.request h.active h.tier h.ticket r settled d.latency_ms h.held v.world in
      (ok answer, record v { world = w })

  -- A 200 without a stream: an exception before `_finalize_event` leaves everything as it is.
  unfoldable pub answer_json :
      Setup → Input → Times → Admitted → Option Fields → Action (Server R) Answer
  unfolding settle
  answer_json c q d h none v = (crash, v)
  answer_json c q d h (some obj) v =
      elim (read_body c.encoder h.ticket.est_prompt h.tier.upstream_model_id obj) [
        | none ↦ (crash, v)
        | some r ↦ settle q d h r (json (client_body h.tier.alias obj)) v
      ]

  -- A 200 with a stream: however it ends, it is settled by what was scanned.
  unfoldable pub answer_stream : Input → Times → Admitted → Action (Server R) Answer
  unfolding settle stream_reading
  answer_stream q d h v =
      let (complete, s) = feed_lines q.lines fresh_scanner in
      settle q d h (stream_reading h.tier h.ticket.est_prompt s) (stream complete) v

  -- A status other than 200: the body is read, with a stream only now, and then the error is made.
  abbrev pub turned_down :
      Setup → Input → Times → Admitted → ℕ → Option Value → Headers → Action (Server R) Answer
  turned_down c q d h status_code body headers v =
      if is_true (get "stream" q.body) && q.body_breaks
      then (crash, v)
      else elim (normalize_upstream_error c.str c.parse_date (pos d.error_now) status_code body
          headers) [ ok e ↦ give_up q d h e v | raise e ↦ (raise e, v) | crash ↦ (crash, v) ]

  -- An answer of the upstream, after `_record_breaker_outcome`.
  unfoldable pub answered :
      Setup → Input → Times → Admitted → ℕ → Option Value → Headers → Action (Server R) Answer
  unfolding give_up answer_json answer_stream
  answered c q d h status_code body headers v =
      let seen = record v {
        breaker = record_breaker_outcome c.breaker_config v.breaker status_code d.outcome_now;
      } in
      if status_code == 200
      then (if is_true (get "stream" q.body)
          then answer_stream q d h seen
          else answer_json c q d h (as_dict body) seen)
      else turned_down c q d h status_code body headers seen

  -- The request from its reservation to its end.
  unfoldable pub serve : Setup → Input → Times → Admitted → Reply → Action (Server R) Answer
  unfolding give_up answered
  serve c q d h (refused e) v = give_up_failed c q d h e v
  serve c q d h timeout v = give_up_failed c q d h (api_error 504 "timeout") v
  serve c q d h http_error v = give_up_failed c q d h (api_error 502 "upstream_error") v
  serve c q d h (response status_code body headers) v = answered c q d h status_code body headers v

  unfoldable pub chat_completions : Setup → Input → Times → Action (Server R) Answer
  unfolding admit serve
  chat_completions c q d = do h ← admit c q d; serve c q d h (reply_to c q h)

-- ===== src/Gateway/Chat/Service.antt =====
-- The request from its reservation to its end: `_send_with_retry`, the answer and its settlement.
use ufuk_ai_agent.Prelude.{
  ℕ, ◌≡◌, ◌≢◌, refl, inl, inr, ◌⊎◌, Bool-cases, Bool, true, false, ◌&&◌, if◌then◌else◌, ◌==◌,
  Option, none, some, arith,
}
use ufuk_ai_agent.Prelude.Int.{pos, ◌+ℤ◌, ◌-ℤ◌}
use ufuk_ai_agent.Errors.{ApiError, Outcome, ok, raise, crash, api_error}
use ufuk_ai_agent.Models.{settled, failed}
use ufuk_ai_agent.Json.{Value, Fields, get, as_dict}
use ufuk_ai_agent.Redis.{Redis, Key, IsLawful, value_at}
use ufuk_ai_agent.Limits.Breaker.{Breaker, record_failure}
use ufuk_ai_agent.Upstream.{
  normalize_upstream_error, Reply, Headers, refused, timeout, http_error, response, is_true,
}
use ufuk_ai_agent.Upstream.Errors.{Normal, is_infinite, normalize_upstream_error-Normal}
use ufuk_ai_agent.Usage.{count_open}
use ufuk_ai_agent.Gateway.Response.{Reading, read_body, client_body}
use ufuk_ai_agent.Gateway.Scanner.{fresh_scanner, feed_lines, record_breaker_outcome}
use ufuk_ai_agent.Gateway.Finalize.{actual_cost, failed_reading, fail_event}
use ufuk_ai_agent.Gateway.Finalize.Ends.{one_if, Ended, finalize_event-Ended}
use ufuk_ai_agent.Gateway.Chat.{
  Server, Setup, Input, Times, Admitted, Answer, json, stream, stream_reading, give_up,
  give_up_failed, settle, answer_json, answer_stream, turned_down, answered, serve,
}

-- The reading of the answer that the client got.
abbrev pub Reads : Setup → Input → Admitted → Answer → Reading → Type 0
Reads c q h (Answer.json body) r =
    (obj : Fields) × (read_body c.encoder h.ticket.est_prompt h.tier.upstream_model_id obj ≡ some r)
    × (body ≡ client_body h.tier.alias obj)
Reads c q h (Answer.stream complete) r =
    (r ≡ stream_reading h.tier h.ticket.est_prompt (feed_lines q.lines fresh_scanner).1)
    × (complete ≡ (feed_lines q.lines fresh_scanner).0)

-- The replies of the upstream after which the backend fails with neither an answer nor an `ApiError`.
abbrev pub Unanswerable : Setup → Input → Admitted → Reply → Type 0
Unanswerable c q h (refused _) = ⊥
Unanswerable c q h timeout = ⊥
Unanswerable c q h http_error = ⊥
Unanswerable c q h (response status_code body headers) =
    ((status_code ≡ 429) × (is_infinite headers.retry_after ≡ true))
    ⊎ (((status_code ≡ 200) × (is_true (get "stream" q.body) ≡ false))
        ⊎ ((status_code ≢ 200) × (is_true (get "stream" q.body) ≡ true) × (q.body_breaks ≡ true)))

module _ {R : Redis} (L : IsLawful R) where
  -- What the request's end leaves, by how it ended; `n` slots belong to the user's other requests.
  abbrev pub Serves :
      (c : Setup) (q : Input) (h : Admitted) (n : ℕ) (reply : Reply)
      → Server R
      → Outcome Answer × Server R
      → Type 0
  Serves c q h n reply v (Outcome.ok answer, v') =
      (r : Reading) × Reads c q h answer r
      × Ended L q.request h.active h.ticket n (pos (actual_cost h.tier r) -ℤ pos h.ticket.amount)
          v.world v'.world
  Serves c q h n reply v (Outcome.raise e, v') =
      Ended L q.request h.active h.ticket n (pos 0 -ℤ pos h.ticket.amount) v.world v'.world
  Serves c q h n reply v (Outcome.crash, v') = Unanswerable c q h reply × (v'.world ≡ v.world)

  module _ (c : Setup) (q : Input) (d : Times) (h : Admitted) (n : ℕ) (v : Server R)
      (open_event : count_open h.ticket.event_id v.world.events ≡ 1)
      (count : value_at R v.world.store (Key.inflight q.request.user)
        ≡ pos n +ℤ one_if h.held) where
    abbrev with_breaker : Breaker → Server R
    with_breaker b = record v { breaker = b }

    give_up-Serves :
        (e : ApiError) (reply : Reply) (b : Breaker)
        → Serves c q h n reply v (give_up q d h e (with_breaker b))
    unfolding give_up fail_event
    give_up-Serves e reply b =
        finalize_event-Ended L q.request h.active h.tier h.ticket
          (failed_reading h.ticket.est_prompt) failed d.latency_ms n h.held v.world refl open_event
          count

    settle-Serves :
        (r : Reading) (answer : Answer) (reply : Reply) (b : Breaker)
        → Reads c q h answer r
        → Serves c q h n reply v (settle q d h r answer (with_breaker b))
    unfolding settle
    settle-Serves r answer reply b reads = (
      r,
      reads,
      finalize_event-Ended L q.request h.active h.tier h.ticket r settled d.latency_ms n h.held
          v.world refl open_event count,
    )

    answer_stream-Serves :
        (reply : Reply) (b : Breaker)
        → Serves c q h n reply v (answer_stream q d h (with_breaker b))
    unfolding answer_stream
    answer_stream-Serves reply b =
        let (complete, s) = feed_lines q.lines fresh_scanner in
        settle-Serves (stream_reading h.tier h.ticket.est_prompt s) (stream complete) reply b
          (refl, refl)

    answer_json-Serves :
        (status_code : ℕ) (body : Option Value) (headers : Headers) (b : Breaker)
        → status_code ≡ 200
        → is_true (get "stream" q.body) ≡ false
        → (obj : Option Fields)
        → Serves c q h n
            (response status_code body headers)
            v
            (answer_json c q d h obj (with_breaker b))
    unfolding answer_json
    answer_json-Serves status_code body headers b fine whole none = (inr (inl (fine, whole)), refl)
    answer_json-Serves status_code body headers b fine whole (some obj) =
        go (read_body c.encoder h.ticket.est_prompt h.tier.upstream_model_id obj) refl
      where
        go :
            (r : Option Reading)
            → read_body c.encoder h.ticket.est_prompt h.tier.upstream_model_id obj ≡ r
            → Serves c q h n (response status_code body headers) v (elim r [
              | none ↦ (crash, with_breaker b)
              | some reading ↦
                  settle q d h reading (json (client_body h.tier.alias obj)) (with_breaker b)
            ])
        go none e = (inr (inl (fine, whole)), refl)
        go (some r) e =
            settle-Serves r (json (client_body h.tier.alias obj))
              (response status_code body headers) b (obj, e, refl)

    -- A reply other than 200.
    refuse-Serves :
        (status_code : ℕ) (body : Option Value) (headers : Headers) (b : Breaker)
        (r : Outcome ApiError)
        → Normal status_code headers r
        → Serves c q h n (response status_code body headers) v (elim r [
          | ok e ↦ give_up q d h e (with_breaker b)
          | raise e ↦ (raise e, with_breaker b)
          | crash ↦ (crash, with_breaker b)
        ])
    refuse-Serves status_code body headers b (Outcome.ok e) normal =
        give_up-Serves e (response status_code body headers) b
    refuse-Serves status_code body headers b (Outcome.raise e) normal = absurd normal
    refuse-Serves status_code body headers b Outcome.crash normal = (inl normal, refl)

    turned_down-Serves :
        (status_code : ℕ) (body : Option Value) (headers : Headers) (b : Breaker)
        → status_code ≢ 200
        → Serves c q h n
            (response status_code body headers)
            v
            (turned_down c q d h status_code body headers (with_breaker b))
    turned_down-Serves status_code body headers b other =
        go (is_true (get "stream" q.body)) q.body_breaks refl refl
      where
        go :
            (streamed broken : Bool)
            → is_true (get "stream" q.body) ≡ streamed
            → q.body_breaks ≡ broken
            → Serves c q h n (response status_code body headers) v (
                if streamed && broken
                then (crash, with_breaker b)
                else elim (normalize_upstream_error c.str c.parse_date
                    (pos d.error_now)
                    status_code
                    body
                    headers) [
                      | ok e ↦ give_up q d h e (with_breaker b)
                      | raise e ↦ (raise e, with_breaker b)
                      | crash ↦ (crash, with_breaker b)
                    ])
        go true true streamed broken = (inr (inr (other, streamed, broken)), refl)
        go true false streamed read = refuse-Serves status_code body headers b _ (
            normalize_upstream_error-Normal c.str c.parse_date (pos d.error_now) status_code body
              headers)
        go false broken whole e = refuse-Serves status_code body headers b _ (
            normalize_upstream_error-Normal c.str c.parse_date (pos d.error_now) status_code body
              headers)

    answered-Serves :
        (status_code : ℕ) (body : Option Value) (headers : Headers)
        → Serves c q h n
            (response status_code body headers)
            v
            (answered c q d h status_code body headers v)
    unfolding answered
    answered-Serves status_code body headers =
        let b = record_breaker_outcome c.breaker_config v.breaker status_code d.outcome_now in
        elim (Bool-cases (status_code == 200)) [
          | inr other ↦ rw other (turned_down-Serves status_code body headers b (ground arith))
          | inl fine ↦ elim (Bool-cases (is_true (get "stream" q.body))) [
            | inl streamed ↦
                rw (fine, streamed) (answer_stream-Serves (response status_code body headers) b)
            | inr whole ↦
                rw (fine, whole)
                  (answer_json-Serves status_code body headers b (ground arith) whole
                    (as_dict body))
          ]
        ]

    failed_exchange-Serves :
        (e : ApiError) (reply : Reply) → Serves c q h n reply v (give_up_failed c q d h e v)
    failed_exchange-Serves e reply =
        give_up-Serves e reply (record_failure c.breaker_config v.breaker d.outcome_now)

    -- A request whose event is open once, with n slots of its user besides its own. After an
    -- answer the event is closed, n slots are held, and the period's counter has changed by the
    -- cost of the reading that the answer was made from, less the amount reserved. After an
    -- `ApiError` the same holds with no cost. In both cases no other key changes. Any other
    -- exception leaves the store and the tables as they were, and comes only of a 429 with an
    -- infinite Retry-After, of a 200 to a request without a stream, or of a refusal to a streamed
    -- request whose body fails to be read.
    pub serve-Serves : (reply : Reply) → Serves c q h n reply v (serve c q d h reply v)
    unfolding serve
    serve-Serves (refused e) = failed_exchange-Serves e (refused e)
    serve-Serves timeout = failed_exchange-Serves (api_error 504 "timeout") timeout
    serve-Serves http_error = failed_exchange-Serves (api_error 502 "upstream_error") http_error
    serve-Serves (response status_code body headers) = answered-Serves status_code body headers

-- ===== src/Lib.antt =====
-- Verification of the Ufuk AI gateway, the Python backend under evren-backend/.
--
-- A chat request passes these parts, and each is a module here. Services are the files of
-- evren-backend/app/services/.
--   Subscriptions (subscriptions.py): which plan serves a user, and until when. A free account
--     rolls to its next period when it is used; a paid one ends. `assign_plan` grants a plan,
--     once for each billing event.
--   Limits (rate_limiter.py, session_guard.py, circuit_breaker.py): counters in Redis for
--     requests a minute and for requests in flight, and the breaker of the upstream.
--   Credits and Estimate (credits.py): what a request costs, and what is put aside for it before
--     it is sent.
--   Ledger (credits.py): the counters in Redis that hold the credits of a billing period and of a
--     rolling window. Ledger/Race and Ledger/ColdStart interleave the commands of requests.
--   Gateway (evren-backend/app/routers/gateway.py): `reserve` is `_reserve`, `finalize_event` is
--     `_finalize_event`, `fail_event` is `_fail_event`; Gateway/Response reads the upstream's
--     body and strips it for the client; Gateway/Scanner is `SseUsageScanner` and what a stream
--     is settled by. Gateway/Chat is the whole of `chat_completions` and `_stream_response`:
--     `admit` is the checks up to the reservation, `serve` the exchange and the request's end.
--   Upstream (upstream.py): the payload that is sent, the second attempt, and the errors as the
--     client sees them.
--   Usage (usage_service.py): the settlement of the event's row and the daily rollup in the same
--     transaction; Usage/Report is the usage of a period by tier.
--   SignIn (auth_service.py, oauth_service.py): sign-up and sign-in with a password, and the
--     account of a Google or Apple identity; SignIn/Exchange is `resolve_identity`, which turns a
--     provider's code into an identity, and SignIn/IdToken the check of the token it gets for it.
--   Auth (auth_service.py): refresh tokens and their rotation, e-mail tokens, passwords.
--   Access (evren-backend/app/security.py, evren-backend/app/dependencies.py): access tokens and
--     `get_current_user`, which admits a request.
--   Sessions (evren-backend/app/routers/auth.py): the limits on sign-in, and the handlers that
--     compose SignIn, Auth and Access.
--   Me (evren-backend/app/routers/me.py): the deletion of an account over every table and Redis.
--   Images (image_service.py, evren-backend/app/routers/images.py): the image quota of a period,
--     the generation in Images/Generate and Images/Batch, and the stored images and their files in
--     Images/Storage and Images/Deletion.
--   Billing (evren-backend/app/routers/billing.py): the webhook, which maps a provider's event to
--     `assign_plan`; Billing/Providers holds `parse_event` and Billing/Signatures `verify_webhook`
--     of the files of billing_providers/.
--   Tiers (tiers.py, evren-backend/app/models/tier.py and the tier endpoints of
--     evren-backend/app/routers/admin.py): Tiers/View is the entry of the cache and its reading,
--     Tiers/Row the table, Tiers/Cache `get_tier` and the changes that invalidate its entry.
-- Models, Errors, Json and Text hold the rows, `ApiError`, JSON values and operations on texts,
-- Prelude/Options the chains of `Option` and the dictionaries of texts.
--
-- How the code is read.
--   A table is a list of rows, oldest first; a tie in `created_at` goes to the later row. UUIDs
--   are numbers, times are microseconds since the epoch, a period key is the number of its day.
--   Credits are whole micro-credits, the quantum to which the code rounds; `Decimal` arithmetic
--   is exact within its 28 digits, which these sums stay below. `math.ceil(raw * 1.2)` is a
--   quotient of integers.
--   Redis is a parameter, `R : Redis`, with the laws of `IsLawful`: the documented effect of its
--   commands, with no key expiring between the commands of one handler. Where requests follow each
--   other for longer than a key lives, in Limits/Guard/Slots and Sessions/Guesses, the expiry of a
--   key is a step of the run. Redis/Memory is a store
--   that meets them. tiktoken, the digests and HMACs, the password check, PyJWT, Base64,
--   `urlencode`, `str.lower`, the collation of the database, the text of a JSON value and of a
--   number and the reading of a date in a text are parameters too, with the round trips that the
--   code relies on as hypotheses. The upstream is a function from the payload and the attempt to
--   the way the exchange ends, a stream is the lines that arrive, and Google and Apple are given
--   by the answers to each request.
--   A handler is a function from the state to an outcome and the state: `ok`, `raise` for an
--   `ApiError`, `crash` for any other exception; Action chains them, and what was written before
--   an exception stays written. Clock readings and new ids are its arguments; `raced` are the
--   rows that other transactions committed meanwhile.
--   There is no fuel: every loop is over a list or counts down.
--
-- Not modelled: HTTP, SQL and logging, which are I/O; the bytes of a streamed response and the
-- list of models; the checkout and the portal of the billing providers; the guard on image paths;
-- the e-mails that are sent; the plan endpoints of an administrator; the pacing windows of the
-- usage report, which are floats; and the other routers, which copy rows to responses.
pub mod Prelude
pub mod Errors
pub mod Action
pub mod Redis
pub mod Models
pub mod Tiers
pub mod Credits
pub mod Ledger
pub mod Limits
pub mod Subscriptions
pub mod Usage
pub mod Estimate
pub mod Json
pub mod Gateway
pub mod Text
pub mod Images
pub mod Billing
pub mod Upstream
pub mod Auth
pub mod SignIn
pub mod Access
pub mod Sessions
pub mod Me
pub mod Tests

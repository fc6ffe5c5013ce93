-- ===== src/Lib.antt =====
-- A verification library for the content platform: a FastAPI service for articles on MySQL, with a
-- Redis cache that it can lose, and a resilience layer around both.
--
-- The parts, and how they interact. A request runs in one transaction (app/db/session.py), once
-- the middleware (app/api/middleware.py) has given it an id and lets it in, with the principal of
-- its access token, which a login (app/services/auth_service.py) made. Its handler
-- (app/api/routers) reads its parameters, the pagination cursor among them, and calls the service
-- (app/services/article_service.py), which reads through the cache
-- (app/cache/article_cache.py) and reads and writes rows through the repository
-- (app/repositories/article_repo.py). Every statement runs inside a guard
-- (app/resilience/guard.py): a deadline, a retry (retry.py) and a circuit breaker (breaker.py), all
-- with the numbers of one policy per dependency (policy.py). The cache asks the breaker of Redis
-- itself. A write queues an invalidation (app/db/after_commit.py), which runs after the commit, and
-- moves the generations that the keys of list pages carry (app/cache/keys.py).
--
-- The files.
--   Base, Text: shared names, lemmas on lists and integers; texts as lists of character codes, with
--     the decimal numeral, `isdigit`, `int` and `partition`; Base64: the standard library's base64url;
--     Equality, Words: comparison of texts, sets of texts.
--   Config: `Settings` of app/config.py, as far as the modelled code reads it, and the `ValueError`
--     of a validation.
--   Effects, Request: the world that the coroutines run in (a monotonic clock, the breakers, the
--     metrics that were counted, and the rest), their exceptions and outcomes; what one request
--     carries: the latch of its cache object and its after-commit queue.
--   Resilience/Breaker: `CircuitBreaker`, method by method; Invariant, Counting, Recovery: its
--     theorems, by induction on a history of events (Events).
--   Resilience/Policy: `DependencyPolicy` and `build_policies`; Bounds: what the validation gives.
--   Resilience/Retry: `with_retry`; Attempts, Elapsed: its outcome, its calls and its time.
--   Resilience/Guard: `get_breaker`, `guarded_call`, `guarded_read`, `guarded_write`; Verdict: one
--     call; Outage: a series of failing writes; Cancelled: a cancelled probe; Kept: predicates that
--     every guarded call keeps.
--   Cache/Keys: the functions of app/cache/keys.py; Windows, Ttl: theorems on the keys and
--     on the times to live.
--   Cache/Articles: `ArticleCache`; Fallback, Latch, Budget: a cache that is off, refused or down;
--     Generations: a bump, and the keys of list pages.
--   Db/Session: `get_session` and the after-commit queue; Commit: what runs, and when; Engine:
--     `build_engine_kwargs` and `build_redis_kwargs`.
--   Articles: the rows and shapes; Repository: the statements; Service: `ArticleService`; Pages:
--     keyset pagination; Reads: the wait for a loader; Writes: updates and deletes; Kept, Coherent:
--     what `get` and `list_articles` keep of the cache and the rows; RolledBack: a run of `update`;
--     Router: the endpoints of app/api/routers/articles.py, with Served, one page as the database
--     gives it, Follow, a client that follows the cursors, and IfMatch.
--   Accounts: Users: app/repositories/user_repo.py; Login: `AuthService`, the password and token
--     functions of app/core/security.py, and `get_current_user` of app/api/deps.py, with Token, what
--     a login's token gives; Passwords: app/security/password_policy.py.
--   Api: the middleware (app/api/middleware.py) and the error responses (app/api/errors.py). Routes:
--     `route_requirement`, `authorize`; Auth: the bearer token, `decode_access_token` of
--     app/core/security.py, `AuthMiddleware`; Shed: `LoadShedMiddleware`, and Interleaved: requests
--     that interleave on its counter; Errors: statuses and `Retry-After`; Cursor: the pagination
--     cursor of app/api/pagination.py, with RoundTrip and Malformed; Health: the readiness check of
--     app/api/routers/health.py.
--   Observability: Context: app/observability/context.py; Labels, Series, Sql:
--     app/observability/metrics.py, with Cardinality, Closed and Methods, how many time series there
--     can be, and Noise, what stands before a statement's verb; Redact: app/observability/logging.py, with
--     Censored; Chain: the outer middleware of app/api/middleware.py, with Recorded.
--   Scripts: Seed: scripts/seed_load_dataset.py, with Batches; Faults: scripts/inject_fault.py, with
--     Applied; Metadata: scripts/run_metadata.py, with Citable.
-- Files named Examples, Concrete, Fixtures and RolledBack hold tests, and show that hypotheses can be met.
--
-- How code is rendered. A coroutine is a function from the world to an outcome and a world; `await`
-- is sequencing, so interleaving with other requests is in what a parameter may do to the world.
-- Seconds are whole microseconds, and Python's floats are exact, finite numbers of them: no NaN, no
-- infinity, no overflow. The times of rows are counts of microseconds after 1970; a cursor is made of a
-- datetime of either side of it. Log lines
-- other than the access record of a request, spans and message texts are left out. Settings are integers of either sign, since only validation
-- keeps them positive.
--
-- Parameters. tenacity (Retry.Retrying: the equation of its loop, and a wait between nothing and its
-- bound), asyncio.timeout (Guard.Runtime: what an interrupted call leaves behind, of which nothing is asked; a
-- call that catches its own cancellation is not modelled), the
-- driver and the rows (Repository.Database), redis-py (Cache.Articles.Redis), the JSON encodings
-- (Service.Codec), argon2 and PyJWT (Accounts.Login), the readiness probes, Starlette's matching of
-- routes, Toxiproxy's API (Scripts.Faults.Transport), `datetime.fromisoformat`, Python's case mapping
-- of Unicode text, SHA-256, random numbers. What a theorem needs of one is among its
-- hypotheses.
--
-- Fuel. The loop of tenacity is the library's and has its own equation, so it has no fuel. The
-- polling loop of `_await_loader` runs on the number of polls that fit before its deadline. A walk
-- over pages takes one page more than there are articles.
--
-- Not modelled: the validation that pydantic and FastAPI make of bodies, traces, the configuration
-- of structlog, the pool collector and the SQLAlchemy events of the metrics, the command lines of
-- the scripts, the judgement and the plots of load test results, and migrations. They are calls of
-- libraries or work in floats, but for the pool collector.
pub mod Base
pub mod Text
pub mod Config
pub mod Effects
pub mod Resilience
pub mod Request
pub mod Cache
pub mod Db
pub mod Articles
pub mod Api
pub mod Accounts
pub mod Observability
pub mod Scripts

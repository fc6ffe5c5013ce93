-- ===== src/Resilience/Fixtures.antt =====
-- Test data: the default settings with their policies, and a dependency whose only state is the
-- number of calls.
use scalable_content_platfor.Base.{ℕ, ◌+◌, true, none, [], ltb, if◌then◌else◌}
use scalable_content_platfor.Base.Int.{pos, negsuc}
use scalable_content_platfor.Config.{Settings}
use scalable_content_platfor.Resilience.Policy.{mysql, redis, DependencyPolicy, Policies}
use scalable_content_platfor.Effects.{operational_error, Outcome, ok, raise, Registry, World, M}

-- The defaults of app/config.py.
abbrev pub defaults : Settings
defaults = record {
  db_pool_size = pos 10;
  db_max_overflow = pos 5;
  db_pool_timeout = pos 10000000;
  db_pool_recycle = pos 1800;
  redis_socket_timeout = pos 2000000;
  redis_socket_connect_timeout = pos 2000000;
  redis_max_connections = pos 50;
  cache_enabled = true;
  cache_article_ttl_seconds = pos 300;
  cache_list_ttl_seconds = pos 60;
  cache_ttl_jitter = pos 200000;
  cache_lock_timeout_seconds = pos 2000000;
  db_connect_timeout_seconds = pos 5000000;
  db_statement_timeout_seconds = pos 2000000;
  db_call_timeout_seconds = pos 3000000;
  db_retry_attempts = pos 2;
  retry_backoff_base_seconds = pos 50000;
  retry_backoff_max_seconds = pos 500000;
  breaker_failure_threshold = pos 5;
  breaker_reset_seconds = pos 10000000;
  breaker_half_open_max_calls = pos 1;
  max_inflight_requests = pos 90;
  shed_retry_after_seconds = pos 1000000;
}

abbrev pub database : DependencyPolicy
database = record {
  name = mysql;
  call_timeout = 3000000;
  attempts = 2;
  backoff_base = 50000;
  backoff_max = 500000;
  breaker_failure_threshold = 5;
  breaker_reset = 10000000;
  breaker_half_open_max_calls = 1;
}

abbrev pub policies : Policies
policies = record {
  database = database;
  cache = record database { name = redis; call_timeout = 2000000; attempts = 1 };
}

-- A negative timeout is refused, and named.
abbrev pub negative : Settings
negative = record defaults { redis_socket_timeout = negsuc 4 }

abbrev pub empty : Registry
empty = record { mysql_breaker = none; redis_breaker = none }

abbrev pub start : World ℕ
start = record { now = 1000; breakers = empty; counted = []; services = 0 }

-- A call that takes a millisecond and gives the outcome.
abbrev pub answer : Outcome ℕ → M ℕ ℕ
answer r w = (r, record w { now = w.now + 1000; services = w.services + 1 })

-- The first call fails with a lost connection, and the second answers.
abbrev pub flaky : M ℕ ℕ
flaky w = answer (if ltb w.services 1 then raise operational_error else ok 7) w

abbrev pub rollback : M ℕ (Unit {0})
rollback w = (ok tt, w)

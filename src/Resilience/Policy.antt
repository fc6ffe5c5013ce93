-- ===== src/Resilience/Policy.antt =====
-- The timeout, retry and breaker budget of each dependency, validated before use
-- (app/resilience/policy.py). Times are whole microseconds.
pub mod Bounds
use scalable_content_platfor.Base.{
  ℕ, suc, zero, ◌+◌, ◌-◌, ◌*◌, ◌^◌, min, Bool, leb, ltb, if◌then◌else◌,
}
use scalable_content_platfor.Base.Int.{ℤ, pos, pos_part, leb_ℤ, ltb_ℤ}
use scalable_content_platfor.Config.{
  Settings, Variable, Checked, ok, value_error, ◌>>=◌, ◌>>◌, refuse_if, db_connect_timeout_seconds,
  db_statement_timeout_seconds, db_call_timeout_seconds, redis_socket_timeout,
  retry_backoff_base_seconds, retry_backoff_max_seconds, breaker_reset_seconds, db_retry_attempts,
  breaker_failure_threshold, breaker_half_open_max_calls,
}

-- The keys of the policy set.
pub data Dependency : Type 0 where
  mysql redis : Dependency

pub record DependencyPolicy : Type 0 where
  pub name : Dependency
  pub call_timeout : ℕ
  pub attempts : ℕ
  pub backoff_base : ℕ
  pub backoff_max : ℕ
  pub breaker_failure_threshold : ℕ
  pub breaker_reset : ℕ
  pub breaker_half_open_max_calls : ℕ

-- One term of the sum: the longest wait before the attempt after the `index`-th retry.
abbrev pub backoff_bound : DependencyPolicy → ℕ → ℕ
backoff_bound p index = min (p.backoff_base * 2 ^ index) p.backoff_max

-- The sum over `range(n)`.
unfoldable pub sum_backoff : DependencyPolicy → ℕ → ℕ
sum_backoff p zero = 0
sum_backoff p (suc n) = sum_backoff p n + backoff_bound p n

-- `max(attempts - 1, 0)` is the truncated subtraction. The numbers are exact and finite here; in the
-- source they are floats, and `2.0**index` raises an OverflowError from the index 1024 on.
unfoldable pub worst_case_backoff : DependencyPolicy → ℕ
worst_case_backoff p = sum_backoff p (p.attempts - 1)

abbrev require_positive : ℤ → Variable → Checked (Unit {0})
require_positive value variable = refuse_if (leb_ℤ value (pos 0)) variable

-- The three settings that both policies share; a value that passed its check is not negative, so
-- its `pos_part` is the value itself.
unfoldable pub database_policy : Settings → DependencyPolicy
database_policy s = record {
  name = mysql;
  call_timeout = pos_part s.db_call_timeout_seconds;
  attempts = pos_part s.db_retry_attempts;
  backoff_base = pos_part s.retry_backoff_base_seconds;
  backoff_max = pos_part s.retry_backoff_max_seconds;
  breaker_failure_threshold = pos_part s.breaker_failure_threshold;
  breaker_reset = pos_part s.breaker_reset_seconds;
  breaker_half_open_max_calls = pos_part s.breaker_half_open_max_calls;
}

unfoldable pub cache_policy : Settings → DependencyPolicy
cache_policy s = record {
  name = redis;
  call_timeout = pos_part s.redis_socket_timeout;
  attempts = 1;
  backoff_base = pos_part s.retry_backoff_base_seconds;
  backoff_max = pos_part s.retry_backoff_max_seconds;
  breaker_failure_threshold = pos_part s.breaker_failure_threshold;
  breaker_reset = pos_part s.breaker_reset_seconds;
  breaker_half_open_max_calls = pos_part s.breaker_half_open_max_calls;
}

pub record Policies : Type 0 where
  pub database : DependencyPolicy
  pub cache : DependencyPolicy

-- `policies[dependency]`
abbrev pub policy_of : Dependency → Policies → DependencyPolicy
policy_of mysql ps = ps.database
policy_of redis ps = ps.cache

unfoldable pub build_policies : Settings → Checked Policies
build_policies s = do
  require_positive s.db_connect_timeout_seconds db_connect_timeout_seconds
  require_positive s.db_statement_timeout_seconds db_statement_timeout_seconds
  require_positive s.db_call_timeout_seconds db_call_timeout_seconds
  require_positive s.redis_socket_timeout redis_socket_timeout
  require_positive s.retry_backoff_base_seconds retry_backoff_base_seconds
  require_positive s.breaker_reset_seconds breaker_reset_seconds
  refuse_if (ltb_ℤ s.db_retry_attempts (pos 1)) db_retry_attempts
  refuse_if (ltb_ℤ s.breaker_failure_threshold (pos 1)) breaker_failure_threshold
  refuse_if (ltb_ℤ s.breaker_half_open_max_calls (pos 1)) breaker_half_open_max_calls
  refuse_if (ltb_ℤ s.retry_backoff_max_seconds s.retry_backoff_base_seconds)
      retry_backoff_max_seconds
  refuse_if (leb_ℤ s.db_call_timeout_seconds s.db_statement_timeout_seconds) db_call_timeout_seconds
  let database = database_policy s
  refuse_if (leb database.call_timeout (worst_case_backoff database)) db_retry_attempts
  ok (record { database = database; cache = cache_policy s })

-- ===== src/Config.antt =====
-- The settings of the application (app/config.py): the numbers that the modelled code reads.
-- Python's floats of seconds are whole microseconds here, and the jitter is a count of millionths;
-- a setting may have either sign, since nothing but the validation keeps it positive.
use scalable_content_platfor.Base.{Bool}
use scalable_content_platfor.Base.Int.{ℤ}

pub record Settings : Type 0 where
  pub db_pool_size : ℤ
  pub db_max_overflow : ℤ
  pub db_pool_timeout : ℤ
  pub db_pool_recycle : ℤ
  pub redis_socket_timeout : ℤ
  pub redis_socket_connect_timeout : ℤ
  pub redis_max_connections : ℤ
  pub cache_enabled : Bool
  pub cache_article_ttl_seconds : ℤ
  pub cache_list_ttl_seconds : ℤ
  pub cache_ttl_jitter : ℤ
  pub cache_lock_timeout_seconds : ℤ
  pub db_connect_timeout_seconds : ℤ
  pub db_statement_timeout_seconds : ℤ
  pub db_call_timeout_seconds : ℤ
  pub db_retry_attempts : ℤ
  pub retry_backoff_base_seconds : ℤ
  pub retry_backoff_max_seconds : ℤ
  pub breaker_failure_threshold : ℤ
  pub breaker_reset_seconds : ℤ
  pub breaker_half_open_max_calls : ℤ
  pub max_inflight_requests : ℤ
  pub shed_retry_after_seconds : ℤ

-- The environment variable that a refusal to start names.
pub data Variable : Type 0 where
  db_connect_timeout_seconds db_statement_timeout_seconds : Variable
  db_call_timeout_seconds redis_socket_timeout : Variable
  retry_backoff_base_seconds retry_backoff_max_seconds : Variable
  breaker_reset_seconds db_retry_attempts : Variable
  breaker_failure_threshold breaker_half_open_max_calls : Variable
  db_pool_timeout db_max_overflow redis_max_connections : Variable
  max_inflight_requests shed_retry_after_seconds : Variable

-- What a validation gives: a value, or the `ValueError` with the variable that it names first.
pub data Checked {ℓ} (A : Type ℓ) : Type ℓ where
  ok : A → Checked A
  value_error : Variable → Checked A

infixl 5 ◌>>=◌ ◌>>◌
abbrev pub ◌>>=◌ {ℓ κ} : {A : Type ℓ} {B : Type κ} → Checked A → (A → Checked B) → Checked B
ok a >>= f = f a
value_error v >>= f = value_error v

abbrev pub ◌>>◌ {ℓ} : {B : Type ℓ} → Checked (Unit {0}) → Checked B → Checked B
m >> k = m >>= λ _. k

-- `if bad: raise ValueError(variable ...)`
abbrev pub refuse_if : Bool → Variable → Checked (Unit {0})
refuse_if Bool.true v = value_error v
refuse_if Bool.false v = ok tt

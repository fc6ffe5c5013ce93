-- ===== src/Db/Session/Engine.antt =====
-- The settings of the connection pool (`build_engine_kwargs` of app/db/session.py) and of the Redis
-- client (`build_redis_kwargs` of app/cache/client.py), validated before they are used.
use scalable_content_platfor.Base.{ℕ, ◌/◌, ◌*◌, ◌+◌, ◌≡◌, Bool, true, arith}
use scalable_content_platfor.Base.Int.{ℤ, pos, pos_part, leb_ℤ, ltb_ℤ, ◌≤ℤ◌, ◌<ℤ◌}
use scalable_content_platfor.Config.{
  Settings, Checked, ok, ◌>>◌, refuse_if, db_pool_timeout, db_max_overflow,
  db_connect_timeout_seconds, db_statement_timeout_seconds, redis_max_connections,
}

pub record EngineOptions : Type 0 where
  pub pool_size : ℤ
  pub max_overflow : ℤ
  pub pool_timeout : ℤ
  pub pool_recycle : ℤ
  pub pool_pre_ping : Bool
  pub connect_timeout : ℤ
  -- The number in `SET SESSION max_execution_time=…`.
  pub max_execution_time : ℕ

-- `int(seconds * 1000)`, of a number of microseconds that is not negative.
abbrev pub statement_timeout_ms : ℤ → ℕ
statement_timeout_ms micros = pos_part micros / 1000

abbrev engine_options : Settings → EngineOptions
engine_options s = record {
  pool_size = s.db_pool_size;
  max_overflow = s.db_max_overflow;
  pool_timeout = s.db_pool_timeout;
  pool_recycle = s.db_pool_recycle;
  pool_pre_ping = true;
  connect_timeout = s.db_connect_timeout_seconds;
  max_execution_time = statement_timeout_ms s.db_statement_timeout_seconds;
}

unfoldable pub build_engine_kwargs : Settings → Checked EngineOptions
build_engine_kwargs s = do
  refuse_if (leb_ℤ s.db_pool_timeout (pos 0)) db_pool_timeout
  refuse_if (ltb_ℤ s.db_max_overflow (pos 0)) db_max_overflow
  refuse_if (leb_ℤ s.db_connect_timeout_seconds (pos 0)) db_connect_timeout_seconds
  refuse_if (leb_ℤ s.db_statement_timeout_seconds (pos 0)) db_statement_timeout_seconds
  ok (engine_options s)

pub record RedisOptions : Type 0 where
  pub decode_responses : Bool
  pub socket_timeout : ℤ
  pub socket_connect_timeout : ℤ
  pub max_connections : ℤ

unfoldable pub build_redis_kwargs : Settings → Checked RedisOptions
build_redis_kwargs s = do
  refuse_if (leb_ℤ s.redis_max_connections (pos 0)) redis_max_connections
  ok (record {
    decode_responses = true;
    socket_timeout = s.redis_socket_timeout;
    socket_connect_timeout = s.redis_socket_connect_timeout;
    max_connections = s.redis_max_connections;
  })

-- What SQLAlchemy and MySQL would read as no limit is not among the options, but for a statement
-- timeout below one millisecond; and the server kills a statement no later than the setting says,
-- and less than a millisecond before.
pub build_engine_kwargs_bounded :
    (s : Settings) {o : EngineOptions}
    → build_engine_kwargs s ≡ ok o
    → (pos 0 <ℤ o.pool_timeout)
      × (pos 0 ≤ℤ o.max_overflow)
      × (pos 0 <ℤ o.connect_timeout)
      × (pos (o.max_execution_time * 1000) ≤ℤ s.db_statement_timeout_seconds)
      × (s.db_statement_timeout_seconds <ℤ pos ((o.max_execution_time + 1) * 1000))
unfolding build_engine_kwargs
build_engine_kwargs_bounded s h = ground arith

-- A positive statement timeout below one millisecond passes the validation, where the other three
-- settings pass it, and becomes 0, which MySQL reads as no limit.
pub build_engine_kwargs_unlimited :
    (s : Settings)
    → pos 0 <ℤ s.db_pool_timeout
    → pos 0 ≤ℤ s.db_max_overflow
    → pos 0 <ℤ s.db_connect_timeout_seconds
    → pos 0 <ℤ s.db_statement_timeout_seconds
    → s.db_statement_timeout_seconds <ℤ pos 1000
    → (o : EngineOptions) × (build_engine_kwargs s ≡ ok o) × (o.max_execution_time ≡ 0)
unfolding build_engine_kwargs
build_engine_kwargs_unlimited s pool overflow connect positive small =
    let zero_ms : pos_part s.db_statement_timeout_seconds / 1000 ≡ 0 = ground arith in
    (engine_options s, ground arith, zero_ms)

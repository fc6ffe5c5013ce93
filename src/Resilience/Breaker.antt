-- ===== src/Resilience/Breaker.antt =====
-- The circuit breaker of one dependency (app/resilience/breaker.py), as a record and one function
-- per method. The injected clock is the argument `now`, in whole microseconds. What the breaker
-- publishes is kept in `published`, newest first: the state that the constructor sets and every
-- transition that `_transition` counts.
pub mod Events
pub mod Invariant
pub mod Recovery
pub mod Counting
mod Examples
use scalable_content_platfor.Base.{
  ℕ, ◌+◌, ◌-◌, Bool, true, false, List, [], ◌∷◌, max, ltb, leb, if◌then◌else◌,
}

pub data BreakerState : Type 0 where
  closed opened half_open : BreakerState

pub data Published : Type 0 where
  gauge : BreakerState → Published
  transition : BreakerState → Published

pub record CircuitBreaker : Type 0 where
  pub failure_threshold : ℕ
  pub reset_micros : ℕ
  pub half_open_max_calls : ℕ
  pub state : BreakerState
  pub failures : ℕ
  pub opened_at : ℕ
  pub probes : ℕ
  pub published : List Published

unfoldable pub init : ℕ → ℕ → ℕ → CircuitBreaker
init failure_threshold reset_micros half_open_max_calls = record {
  failure_threshold = failure_threshold;
  reset_micros = reset_micros;
  half_open_max_calls = half_open_max_calls;
  state = closed;
  failures = 0;
  opened_at = 0;
  probes = 0;
  published = gauge closed ∷ [];
}

to_open : ℕ → CircuitBreaker → CircuitBreaker
to_open now b = record b {
  state = opened;
  opened_at = now;
  probes = 0;
  failures = 0;
  published = transition opened ∷ b.published;
}

to_half_open : CircuitBreaker → CircuitBreaker
to_half_open b = record b {
  state = half_open;
  probes = 0;
  published = transition half_open ∷ b.published;
}

to_closed : CircuitBreaker → CircuitBreaker
to_closed b = record b {
  state = closed;
  failures = 0;
  probes = 0;
  published = transition closed ∷ b.published;
}

-- The last part of `allow`, reached in the half-open state.
probe : CircuitBreaker → Bool × CircuitBreaker
probe b =
    if leb b.half_open_max_calls b.probes
    then (false, b)
    else (true, record b { probes = b.probes + 1 })

allow_in : BreakerState → ℕ → CircuitBreaker → Bool × CircuitBreaker
unfolding to_half_open probe
allow_in closed now b = (true, b)
allow_in opened now b =
    if ltb now (b.opened_at + b.reset_micros) then (false, b) else probe (to_half_open b)
allow_in half_open now b = probe b

-- `now - opened_at < reset` is read as `now < opened_at + reset`, which is the same over the
-- integers.
unfoldable pub allow : ℕ → CircuitBreaker → Bool × CircuitBreaker
unfolding allow_in
allow now b = allow_in b.state now b

record_success_in : BreakerState → CircuitBreaker → CircuitBreaker
unfolding to_closed
record_success_in half_open b = to_closed b
record_success_in _ b = record b { failures = 0 }

unfoldable pub record_success : CircuitBreaker → CircuitBreaker
unfolding record_success_in
record_success b = record_success_in b.state b

-- The count and the test of `record_failure`, outside the half-open state.
count_failure : ℕ → CircuitBreaker → CircuitBreaker
unfolding to_open
count_failure now b =
    let b' = record b { failures = b.failures + 1 } in
    if leb b.failure_threshold b'.failures then to_open now b' else b'

record_failure_in : BreakerState → ℕ → CircuitBreaker → CircuitBreaker
unfolding to_open count_failure
record_failure_in half_open now b = to_open now b
record_failure_in _ now b = count_failure now b

unfoldable pub record_failure : ℕ → CircuitBreaker → CircuitBreaker
unfolding record_failure_in
record_failure now b = record_failure_in b.state now b

seconds_until_probe_in : BreakerState → ℕ → CircuitBreaker → ℕ
seconds_until_probe_in opened now b = max (b.reset_micros + b.opened_at - now) 1000
seconds_until_probe_in _ now b = 0

-- In microseconds: the floor of 0.001 s is 1000.
unfoldable pub seconds_until_probe : ℕ → CircuitBreaker → ℕ
unfolding seconds_until_probe_in
seconds_until_probe now b = seconds_until_probe_in b.state now b

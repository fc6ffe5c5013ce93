-- ===== src/Resilience/Breaker/Invariant.antt =====
-- Well-formed breakers (app/resilience/breaker.py).
use scalable_content_platfor.Base.{ℕ, ◌≤◌, ◌<◌, ◌≡◌, ◌≢◌, List, [], ◌∷◌, some, arith}
use scalable_content_platfor.Resilience.Breaker.{
  CircuitBreaker, half_open, init, allow, record_success, record_failure,
}
use scalable_content_platfor.Resilience.Breaker.Events.{
  Event, ask, success, failure, step, run, latest,
}

-- Thresholds as the policy accepts them; the counts below them; no probe outside the half-open
-- state; and the published gauge shows the state.
pub record IsValid (b : CircuitBreaker) : Type 0 where
  pub threshold_positive : 1 ≤ b.failure_threshold
  pub probes_positive : 1 ≤ b.half_open_max_calls
  pub counted : b.failures < b.failure_threshold
  pub capped : b.probes ≤ b.half_open_max_calls
  pub idle : (b.state ≢ half_open) → b.probes ≡ 0
  pub mirrored : latest b.published ≡ some b.state

-- The settings never change.
pub record SameSettings (b b' : CircuitBreaker) : Type 0 where
  pub threshold : b'.failure_threshold ≡ b.failure_threshold
  pub reset : b'.reset_micros ≡ b.reset_micros
  pub max_calls : b'.half_open_max_calls ≡ b.half_open_max_calls

pub init-IsValid :
    (threshold reset calls : ℕ) → 1 ≤ threshold → 1 ≤ calls → IsValid (init threshold reset calls)
unfolding init
init-IsValid threshold reset calls h k = ground arith

pub allow-IsValid : (now : ℕ) {b : CircuitBreaker} → IsValid b → IsValid (allow now b).1
unfolding allow
allow-IsValid now {b} v = ground (arith, v.idle)

pub record_success-IsValid : {b : CircuitBreaker} → IsValid b → IsValid (record_success b)
unfolding record_success
record_success-IsValid {b} v = ground (arith, v.idle)

pub record_failure-IsValid :
    (now : ℕ) {b : CircuitBreaker} → IsValid b → IsValid (record_failure now b)
unfolding record_failure
record_failure-IsValid now {b} v = ground (arith, v.idle)

pub step-IsValid : (e : Event) {b : CircuitBreaker} → IsValid b → IsValid (step e b)
unfolding step
step-IsValid (ask now) v = allow-IsValid now v
step-IsValid success v = record_success-IsValid v
step-IsValid (failure now) v = record_failure-IsValid now v

-- Whatever its callers do and in whatever order, a valid breaker stays valid: its failure count
-- is below the threshold, it never has more probes out than the limit, it has none out unless it
-- is half open, and the gauge that it published last is its state.
pub run-IsValid : (h : List Event) {b : CircuitBreaker} → IsValid b → IsValid (run h b)
unfolding run
run-IsValid [] v = v
run-IsValid (e ∷ h) v = step-IsValid e (run-IsValid h v)

pub step-SameSettings : (e : Event) (b : CircuitBreaker) → SameSettings b (step e b)
unfolding step allow record_success record_failure
step-SameSettings (ask now) b = ground arith
step-SameSettings success b = ground arith
step-SameSettings (failure now) b = ground arith

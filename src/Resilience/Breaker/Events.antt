-- ===== src/Resilience/Breaker/Events.antt =====
-- Histories of one breaker: its callers ask, report an answer, or report a fault, in any order.
use scalable_content_platfor.Base.{ℕ, List, [], ◌∷◌, Option, none, some}
use scalable_content_platfor.Resilience.Breaker.{
  CircuitBreaker, BreakerState, Published, gauge, transition, allow, record_success, record_failure,
}

pub data Event : Type 0 where
  ask : ℕ → Event
  success : Event
  failure : ℕ → Event

unfoldable pub step : Event → CircuitBreaker → CircuitBreaker
step (ask now) b = (allow now b).1
step success b = record_success b
step (failure now) b = record_failure now b

-- A history is kept newest first.
unfoldable pub run : List Event → CircuitBreaker → CircuitBreaker
unfolding step
run [] b = b
run (e ∷ h) b = step e (run h b)

-- The last value that the breaker's gauge was set to.
abbrev pub latest : List Published → Option BreakerState
latest [] = none
latest (gauge s ∷ _) = some s
latest (transition s ∷ _) = some s

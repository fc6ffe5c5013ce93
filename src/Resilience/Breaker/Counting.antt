-- ===== src/Resilience/Breaker/Counting.antt =====
-- Closed breakers (app/resilience/breaker.py) against a description of their histories.
use scalable_content_platfor.Base.{ℕ, suc, ◌<◌, ◌≡◌, List, [], ◌∷◌, arith}
use scalable_content_platfor.Resilience.Breaker.{
  CircuitBreaker, closed, opened, init, allow, record_success, record_failure,
}
use scalable_content_platfor.Resilience.Breaker.Events.{Event, ask, success, failure, step, run}

-- The failures since the last success, in a history that is newest first.
abbrev pub consecutive : List Event → ℕ
consecutive [] = 0
consecutive (ask _ ∷ h) = consecutive h
consecutive (success ∷ h) = 0
consecutive (failure _ ∷ h) = suc (consecutive h)

-- At no time had the history so many failures in a row.
abbrev pub Quiet : ℕ → List Event → Type 0
Quiet threshold [] = 0 < threshold
Quiet threshold (e ∷ h) = (consecutive (e ∷ h) < threshold) × Quiet threshold h

-- What holds of a breaker that is still closed after the history.
pub record Counts (threshold : ℕ) (h : List Event) (b : CircuitBreaker) : Type 0 where
  pub threshold_kept : b.failure_threshold ≡ threshold
  pub is_closed : b.state ≡ closed
  pub count : b.failures ≡ consecutive h

step-Counts :
    (threshold : ℕ) (e : Event) (h : List Event) (b : CircuitBreaker)
    → Counts threshold h b
    → consecutive (e ∷ h) < threshold
    → Counts threshold (e ∷ h) (step e b)
unfolding step allow record_success record_failure
step-Counts threshold (ask now) h b c q = ground arith
step-Counts threshold success h b c q = ground arith
step-Counts threshold (failure now) h b c q = ground arith

-- A new breaker whose history never had `threshold` failures in a row is closed, and counts the
-- failures since the last success.
pub run-Counts :
    (threshold reset calls : ℕ) (h : List Event)
    → Quiet threshold h
    → Counts threshold h (run h (init threshold reset calls))
unfolding run init
run-Counts threshold reset calls [] q = ground arith
run-Counts threshold reset calls (e ∷ h) q =
    step-Counts threshold e h _ (run-Counts threshold reset calls h q.1) q.0

-- A new breaker whose history never had `threshold` failures in a row opens at the very failure
-- that makes `threshold` in a row, at the time of that failure.
pub run_opens :
    (threshold reset calls now : ℕ) (h : List Event)
    → Quiet threshold h
    → suc (consecutive h) ≡ threshold
    → let b = run (failure now ∷ h) (init threshold reset calls) in
      (b.state ≡ opened) × (b.opened_at ≡ now) × (b.failures ≡ 0)
unfolding run step record_failure
run_opens threshold reset calls now h q e = ground (arith, run-Counts threshold reset calls h q)

-- ===== src/Resilience/Retry.antt =====
-- Retries of transient faults inside the policy budget (app/resilience/retry.py). The retrying
-- loop itself is tenacity's, and a parameter: `Retrying` states what its documentation says.
pub mod Attempts
pub mod Elapsed
use scalable_content_platfor.Base.{
  ℕ, suc, ◌+◌, ◌-◌, ◌*◌, ◌^◌, ◌≤◌, min, ◌≡◌, Bool, true, false, not, ◌&&◌, Option, none, some, leb,
  ltb, if◌then◌else◌,
}
use scalable_content_platfor.Resilience.Policy.{Dependency, DependencyPolicy}
use scalable_content_platfor.Effects.{
  DomainError, upstream_timeout, dependency_unavailable, Exception, operational_error,
  interface_error, disconnection_error, redis_connection_error, redis_timeout_error, redis_other,
  timeout_error, os_error, domain, Outcome, ok, raise, RetryResult, success, exhausted, retries,
  World, M, count,
}

unfoldable pub is_transient : Exception → Bool
is_transient operational_error = true
is_transient interface_error = true
is_transient disconnection_error = true
is_transient redis_connection_error = true
is_transient redis_timeout_error = true
is_transient timeout_error = true
is_transient os_error = true
is_transient _ = false

unfoldable pub translate : ℕ → Exception → Exception
translate retry_after timeout_error = domain (upstream_timeout retry_after)
translate retry_after redis_timeout_error = domain (upstream_timeout retry_after)
translate retry_after _ = domain (dependency_unavailable retry_after)

module _ {S A : Type 0} where
  -- What follows an attempt: stop with its outcome, or go on with the next.
  abbrev pub after_attempt :
      ℕ
      → (Exception → Bool)
      → (ℕ × World S → Outcome A × (ℕ × World S))
      → ℕ
      → Outcome A × (ℕ × World S)
      → Outcome A × (ℕ × World S)
  after_attempt stop retry next failed (ok a, s) = (ok a, s)
  after_attempt stop retry next failed (raise e, s) =
      if retry e && ltb (suc failed) stop then next s else (raise e, s)

-- tenacity's `AsyncRetrying` with `stop_after_attempt(stop)`, `wait_random_exponential(multiplier,
-- max)`, `retry_if_exception(retry)` and `reraise`. `iterate … failed s` is the loop after so many
-- failed attempts (the attempt's number less one), whose body is run on the state `s`; `pause
-- bound` sleeps for a time drawn from `[0, bound]`. The state is the body's local count and the
-- world.
pub record Retrying (S : Type 0) : Type 1 where
  pub pause : ℕ → World S → World S
  pub iterate :
      (A : Type 0) (stop multiplier max_wait : ℕ) (retry : Exception → Bool)
      (body : ℕ × World S → Outcome A × (ℕ × World S)) (failed : ℕ)
      → ℕ × World S
      → Outcome A × (ℕ × World S)
  pub iterate_law :
      (A : Type 0) (stop multiplier max_wait : ℕ) (retry : Exception → Bool)
      (body : ℕ × World S → Outcome A × (ℕ × World S)) (failed : ℕ) (s : ℕ × World S)
      → iterate A stop multiplier max_wait retry body failed s
        ≡ after_attempt stop retry
            (λ s'.
              iterate A stop multiplier max_wait retry body
                (suc failed)
                (s'.0, pause (min (multiplier * 2 ^ failed) max_wait) s'.1))
            failed
            (body s)
  pub pause_forward : (bound : ℕ) (w : World S) → w.now ≤ (pause bound w).now
  pub pause_bounded : (bound : ℕ) (w : World S) → (pause bound w).now ≤ w.now + bound

module _ {S : Type 0} where
  -- `if attempts > 1 and on_retry is not None: await on_retry()`
  unfoldable pub before_attempt : ℕ → Option (M S (Unit {0})) → M S (Unit {0})
  before_attempt attempts none w = (ok tt, w)
  before_attempt attempts (some on_retry) w = if ltb 1 attempts then on_retry w else (ok tt, w)

module _ {S A : Type 0} where
  -- The body of the loop: count, roll back before every attempt but the first, and run.
  unfoldable pub attempt : M S A → Option (M S (Unit {0})) → ℕ × World S → Outcome A × (ℕ × World S)
  unfolding before_attempt
  attempt operation on_retry (attempts, w) =
      let (r, w') = before_attempt (attempts + 1) on_retry w in
      elim r [
        | ok _ ↦ let (r', w'') = operation w' in (r', (attempts + 1, w''))
        | raise e ↦ (raise e, (attempts + 1, w'))
      ]

  -- The `except` clause, and what comes after the loop.
  unfoldable pub conclude : Dependency → ℕ → Outcome A × (ℕ × World S) → Outcome A × World S
  unfolding is_transient translate
  conclude dependency retry_after (ok a, (attempts, w)) =
      (ok a, if ltb 1 attempts then count (retries dependency success) w else w)
  conclude dependency retry_after (raise e, (attempts, w)) =
      if not (is_transient e) then (raise e, w) else (
        raise (translate retry_after e),
        if ltb 1 attempts then count (retries dependency exhausted) w else w,
      )

module _ {S : Type 0} (tenacity : Retrying S) where
  open tenacity use {iterate}

  unfoldable pub with_retry :
      {A : Type 0} → M S A → DependencyPolicy → Dependency → Option (M S (Unit {0})) → M S A
  unfolding conclude
  with_retry {A} operation policy dependency on_retry w = conclude dependency policy.breaker_reset (
      iterate A policy.attempts policy.backoff_base policy.backoff_max is_transient
        (attempt operation on_retry) 0 (0, w))

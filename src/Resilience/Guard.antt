-- ===== src/Resilience/Guard.antt =====
-- The composition around one dependency call (app/resilience/guard.py): circuit breaker, then
-- timeout, then retry. The breaker is the process-wide one that `get_breaker` of
-- app/resilience/breaker.py builds on first use. Code between two awaits takes no time.
pub mod Verdict
pub mod Outage
pub mod Cancelled
pub mod Kept
use scalable_content_platfor.Base.{
  ℕ, ◌+◌, ◌≤◌, ◌≡◌, Bool, true, false, Option, none, some, leb, if◌then◌else◌,
}
use scalable_content_platfor.Resilience.Breaker.{
  CircuitBreaker, init, allow, record_success, record_failure, seconds_until_probe,
}
use scalable_content_platfor.Resilience.Policy.{Dependency, DependencyPolicy}
use scalable_content_platfor.Resilience.Retry.{Retrying, with_retry, translate}
use scalable_content_platfor.Effects.{
  upstream_timeout, dependency_unavailable, Exception, timeout_error, domain, cancelled, Outcome,
  ok, raise, dependency_timeout, World, M, count, find_breaker, put_breaker,
}

-- What the platform takes from its libraries: tenacity's loop, and the world that a call leaves
-- behind which asyncio cancels at a deadline. Nothing is said of the time: the clean-up of a
-- cancelled call may take as long as it likes.
pub record Runtime (S : Type 0) : Type 1 where
  pub tenacity : Retrying S
  pub interrupted : (A : Type 0) → M S A → ℕ → World S → World S

unfoldable pub new_breaker : DependencyPolicy → CircuitBreaker
unfolding init
new_breaker p = init p.breaker_failure_threshold p.breaker_reset p.breaker_half_open_max_calls

-- The breaker of a dependency, built on first use.
unfoldable pub get_breaker : {S : Type 0} → Dependency → DependencyPolicy → World S → CircuitBreaker
get_breaker dependency policy w = elim (find_breaker dependency w.breakers) [
  | some b ↦ b
  | none ↦ new_breaker policy
]

module _ {S : Type 0} where
  abbrev pub set_breaker : Dependency → CircuitBreaker → World S → World S
  set_breaker dependency b w = record w { breakers = put_breaker dependency b w.breakers }

  -- `breaker.record_success()` and `breaker.record_failure()` on the breaker as it now stands.
  unfoldable pub heard_success : Dependency → DependencyPolicy → World S → World S
  unfolding get_breaker
  heard_success dependency policy w =
      set_breaker dependency (record_success (get_breaker dependency policy w)) w

  unfoldable pub heard_failure : Dependency → DependencyPolicy → World S → World S
  unfolding get_breaker
  heard_failure dependency policy w =
      set_breaker dependency (record_failure w.now (get_breaker dependency policy w)) w

-- `replace(policy, attempts=1)` and no `on_retry` for a write.
unfoldable pub effective_policy : Bool → DependencyPolicy → DependencyPolicy
effective_policy retry policy = if retry then policy else record policy { attempts = 1 }

module _ {S A : Type 0} where
  -- The `except` clauses and the last two lines.
  unfoldable pub settle : Dependency → DependencyPolicy → Outcome A × World S → Outcome A × World S
  unfolding heard_success heard_failure
  settle dependency policy (ok a, w) = (ok a, heard_success dependency policy w)
  settle dependency policy (raise timeout_error, w) = (
    raise (translate policy.breaker_reset timeout_error),
    heard_failure dependency policy (count (dependency_timeout dependency) w),
  )
  settle dependency policy (raise (domain (dependency_unavailable n)), w) =
      (raise (domain (dependency_unavailable n)), heard_failure dependency policy w)
  settle dependency policy (raise (domain (upstream_timeout n)), w) = (
    raise (domain (upstream_timeout n)),
    heard_failure dependency policy (count (dependency_timeout dependency) w),
  )
  settle dependency policy (raise cancelled, w) = (raise cancelled, w)
  settle dependency policy (raise e, w) = (raise e, heard_success dependency policy w)

module _ {S : Type 0} (runtime : Runtime S) {A : Type 0} where
  open runtime use {tenacity, interrupted}

  -- `async with asyncio.timeout(budget)`: a call that would not be done by the deadline is cancelled
  -- there, and lets itself be cancelled.
  unfoldable pub timeout : ℕ → M S A → M S A
  timeout budget call w =
      let (r, w') = call w in
      if leb w'.now (w.now + budget)
      then (r, w')
      else (raise timeout_error, interrupted A call (w.now + budget) w)

  -- The call inside its budget, once the breaker has admitted it.
  unfoldable pub admitted_call :
      Bool → Option (M S (Unit {0})) → Dependency → DependencyPolicy → M S A → M S A
  unfolding timeout settle effective_policy
  admitted_call retry on_retry dependency policy operation w = settle dependency policy (
      timeout policy.call_timeout
        (with_retry tenacity operation (effective_policy retry policy) dependency
          (if retry then on_retry else none))
        w)

  unfoldable pub guarded_call :
      Bool → Option (M S (Unit {0})) → Dependency → DependencyPolicy → M S A → M S A
  unfolding get_breaker admitted_call
  guarded_call retry on_retry dependency policy operation w =
      let (allowed, b) = allow w.now (get_breaker dependency policy w) in
      let w' = set_breaker dependency b w in
      if allowed
      then admitted_call retry on_retry dependency policy operation w'
      else (raise (domain (dependency_unavailable (seconds_until_probe w.now b))), w')

  -- The decorators: a read retries with a rollback before each further attempt, a write does not.
  unfoldable pub guarded_read : M S (Unit {0}) → Dependency → DependencyPolicy → M S A → M S A
  unfolding guarded_call
  guarded_read rollback = guarded_call true (some rollback)

  unfoldable pub guarded_write : Dependency → DependencyPolicy → M S A → M S A
  unfolding guarded_call
  guarded_write = guarded_call false none

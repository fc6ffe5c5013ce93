-- ===== src/Resilience/Guard/Verdict.antt =====
-- One call of the guard (app/resilience/guard.py): what its caller sees, and what the breaker hears.
use scalable_content_platfor.Base.{
  ℕ, ◌+◌, ◌≤◌, ◌≡◌, refl, ◌⊎◌, inl, inr, Bool, not, Bool-cases, true, false, Option, none, arith,
  if◌then◌else◌,
}
use scalable_content_platfor.Resilience.Breaker.{CircuitBreaker, allow, seconds_until_probe}
use scalable_content_platfor.Resilience.Policy.{Dependency, DependencyPolicy}
use scalable_content_platfor.Resilience.Retry.{
  with_retry, is_transient, translate, Retrying, attempt, conclude, before_attempt,
}
use scalable_content_platfor.Resilience.Retry.Attempts.{
  IsFinal, with_retry-IsFinal, with_retry_once, report,
}
use scalable_content_platfor.Effects.{
  Exception, domain, upstream_timeout, dependency_unavailable, cancelled, timeout_error,
  redis_timeout_error, dependency_timeout, count, Outcome, ok, raise, World, M,
}
use scalable_content_platfor.Resilience.Guard.{
  Runtime, get_breaker, set_breaker, heard_success, heard_failure, settle, timeout,
  effective_policy, admitted_call, guarded_call, guarded_write,
}

settle-IsFinal :
    {S A : Type 0} (dependency : Dependency) (policy : DependencyPolicy) (r : Outcome A × World S)
    → IsFinal r.0 ⊎ (r.0 ≡ raise timeout_error)
    → IsFinal (settle dependency policy r).0
unfolding settle is_transient translate
settle-IsFinal dependency policy (ok a, w) h = tt
settle-IsFinal dependency policy (raise e, w) h = ground arith

-- The dependency answered, though the answer is an error: no transient fault, neither of the two
-- errors of a dependency that is down, and no cancellation.
unfoldable pub is_answer : Exception → Bool
is_answer (domain (upstream_timeout n)) = false
is_answer (domain (dependency_unavailable n)) = false
is_answer cancelled = false
is_answer e = not (is_transient e)

-- A result, or an exception that is an answer.
abbrev pub is_answered : {A : Type 0} → Outcome A → Bool
is_answered (ok a) = true
is_answered (raise e) = is_answer e

settle_answer :
    {S A : Type 0} (dependency : Dependency) (policy : DependencyPolicy) (r : Outcome A)
    (w : World S)
    → is_answered r ≡ true
    → settle dependency policy (r, w) ≡ (r, heard_success dependency policy w)
unfolding settle is_answer is_transient
settle_answer dependency policy (ok a) w h = refl
settle_answer dependency policy (raise e) w h = ground arith

with_retry_answered :
    {S A : Type 0} (tenacity : Retrying S) (operation : M S A) (policy : DependencyPolicy)
    (dependency : Dependency) (on_retry : Option (M S (Unit {0}))) (w : World S)
    → is_answered (operation w).0 ≡ true
    → with_retry tenacity operation policy dependency on_retry w ≡ operation w
unfolding with_retry attempt conclude before_attempt is_answer is_transient
with_retry_answered {A} tenacity operation policy dependency on_retry w h = ground (
  arith,
  tenacity.iterate_law A policy.attempts policy.backoff_base policy.backoff_max is_transient
      (attempt operation on_retry) 0 (0, w),
)

-- What a write comes to, by what its one run came to: the exception that the caller sees, the
-- time-out that is counted, and what the breaker hears. A cancelled write tells it nothing.
abbrev pub write_result :
    {S A : Type 0} → Dependency → DependencyPolicy → Outcome A → World S → Outcome A × World S
write_result dependency policy (ok a) w = (ok a, heard_success dependency policy w)
write_result dependency policy (raise cancelled) w = (raise cancelled, w)
write_result dependency policy (raise (domain (upstream_timeout n))) w = (
  raise (domain (upstream_timeout n)),
  heard_failure dependency policy (count (dependency_timeout dependency) w),
)
write_result dependency policy (raise (domain (dependency_unavailable n))) w =
    (raise (domain (dependency_unavailable n)), heard_failure dependency policy w)
write_result dependency policy (raise timeout_error) w = (
  raise (domain (upstream_timeout policy.breaker_reset)),
  heard_failure dependency policy (count (dependency_timeout dependency) w),
)
write_result dependency policy (raise redis_timeout_error) w = (
  raise (domain (upstream_timeout policy.breaker_reset)),
  heard_failure dependency policy (count (dependency_timeout dependency) w),
)
write_result dependency policy (raise e) w =
    if is_transient e
    then (
      raise (domain (dependency_unavailable policy.breaker_reset)),
      heard_failure dependency policy w,
    )
    else (raise e, heard_success dependency policy w)

pub settle-report :
    {S A : Type 0} (dependency : Dependency) (policy : DependencyPolicy) (r : Outcome A)
    (w : World S)
    → settle dependency policy (report policy.breaker_reset r, w)
      ≡ write_result dependency policy r w
unfolding settle is_transient translate
settle-report dependency policy (ok a) w = refl
settle-report dependency policy (raise e) w = ground arith

module _ {S A : Type 0} (runtime : Runtime S) (retry : Bool) (on_retry : Option (M S (Unit {0})))
    (dependency : Dependency) (policy : DependencyPolicy) where
  open runtime use {tenacity}

  timeout_outcome :
      (budget : ℕ) (call : M S A) (w : World S)
      → IsFinal (call w).0
      → IsFinal (timeout runtime budget call w).0
        ⊎ ((timeout runtime budget call w).0 ≡ raise timeout_error)
  unfolding timeout
  timeout_outcome budget call w h = ground arith

  -- No driver fault gets past the guard: what it raises is no transient fault.
  pub guarded_call-IsFinal :
      (operation : M S A) (w : World S)
      → IsFinal (guarded_call runtime retry on_retry dependency policy operation w).0
  unfolding guarded_call admitted_call is_transient
  guarded_call-IsFinal operation w =
      let w' = set_breaker dependency (allow w.now (get_breaker dependency policy w)).1 w in
      let call =
        with_retry tenacity operation (effective_policy retry policy) dependency
          (if retry then on_retry else none) in
      let final =
        with_retry-IsFinal tenacity operation (effective_policy retry policy) dependency
          (if retry then on_retry else none) w' in
      elim (Bool-cases (allow w.now (get_breaker dependency policy w)).0) [
        | inl allowed ↦ rw allowed (
            settle-IsFinal dependency policy (timeout runtime policy.call_timeout call w')
              (timeout_outcome policy.call_timeout call w' final))
        | inr refused ↦ rw refused refl
      ]

  -- A call that the breaker refuses costs nothing: the operation does not run, no time passes, and
  -- the caller gets 503 with the breaker's own wait.
  pub guarded_call_refused :
      (operation : M S A) (w : World S)
      → (allow w.now (get_breaker dependency policy w)).0 ≡ false
      → let b = (allow w.now (get_breaker dependency policy w)).1 in
        guarded_call runtime retry on_retry dependency policy operation w ≡ (
          raise (domain (dependency_unavailable (seconds_until_probe w.now b))),
          set_breaker dependency b w,
        )
  unfolding guarded_call
  guarded_call_refused operation w h = rw h

  -- What comes back in time from a call that the breaker admits is passed through unchanged, and
  -- the breaker hears a success: a result, and also an answer that is an error such as 404, which
  -- is neither retried nor counted as a failure.
  pub guarded_call_answer :
      (operation : M S A) (w : World S) {b : CircuitBreaker} {r : Outcome A} {w' : World S}
      → allow w.now (get_breaker dependency policy w) ≡ (true, b)
      → operation (set_breaker dependency b w) ≡ (r, w')
      → is_answered r ≡ true
      → w'.now ≤ w.now + policy.call_timeout
      → guarded_call runtime retry on_retry dependency policy operation w
        ≡ (r, heard_success dependency policy w')
  unfolding guarded_call admitted_call timeout
  guarded_call_answer operation w {b} {r} {w'} allowed h answered prompt =
      let tried =
        with_retry_answered tenacity operation (effective_policy retry policy) dependency
          (if retry then on_retry else none) (set_breaker dependency b w) (rw h answered) in
      ground (arith, tried, settle_answer dependency policy r w' answered)

-- A write that the breaker admits is never repeated, whatever comes back: if it ends inside its
-- budget, it is one run of the operation. A result is passed on, and the breaker hears a success;
-- so is an error that is an answer. After a transient fault, or an error that says that the
-- dependency is down, the breaker hears a failure, the caller gets an error that says which, and
-- a time-out is counted. A cancellation is passed on, and the breaker hears nothing.
pub guarded_write_once :
    {S A : Type 0} (runtime : Runtime S) (dependency : Dependency) (policy : DependencyPolicy)
    (operation : M S A) (w : World S) {b : CircuitBreaker}
    → allow w.now (get_breaker dependency policy w) ≡ (true, b)
    → (operation (set_breaker dependency b w)).1.now ≤ w.now + policy.call_timeout
    → guarded_write runtime dependency policy operation w ≡ (
        let (r, w') = operation (set_breaker dependency b w) in write_result dependency policy r w')
unfolding guarded_write guarded_call admitted_call timeout effective_policy
guarded_write_once runtime dependency policy operation w {b} allowed prompt = ground (
  arith,
  with_retry_once runtime.tenacity operation (effective_policy false policy) dependency none
      (set_breaker dependency b w) (omega arith),
  settle-report dependency policy (operation (set_breaker dependency b w)).0
      (operation (set_breaker dependency b w)).1,
)

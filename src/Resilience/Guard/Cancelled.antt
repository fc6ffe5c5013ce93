-- ===== src/Resilience/Guard/Cancelled.antt =====
-- A probe of app/resilience/guard.py that is cancelled: asyncio's CancelledError is no `Exception`.
use scalable_content_platfor.Base.{
  ℕ, ◌+◌, ◌≤◌, ◌≡◌, refl, ap, ◌∙◌, Bool, if◌then◌else◌, true, false, Option, none, arith,
}
use scalable_content_platfor.Resilience.Breaker.{
  CircuitBreaker, opened, half_open, allow, seconds_until_probe,
}
use scalable_content_platfor.Resilience.Policy.{Dependency, DependencyPolicy}
use scalable_content_platfor.Resilience.Retry.{is_transient}
use scalable_content_platfor.Resilience.Retry.Attempts.{with_retry_answer}
use scalable_content_platfor.Effects.{
  domain, dependency_unavailable, cancelled, Outcome, raise, World, M,
}
use scalable_content_platfor.Resilience.Guard.{
  Runtime, get_breaker, set_breaker, settle, timeout, effective_policy, admitted_call, guarded_call,
}
use scalable_content_platfor.Resilience.Guard.Verdict.{guarded_call_refused}
use scalable_content_platfor.Resilience.Guard.Outage.{get_breaker-set_breaker, get_breaker_cong}

allow_probe :
    (now : ℕ) (b : CircuitBreaker)
    → b.state ≡ opened
    → b.opened_at + b.reset_micros ≤ now
    → b.half_open_max_calls ≡ 1
    → ((allow now b).0 ≡ true)
      × ((allow now b).1.state ≡ half_open)
      × ((allow now b).1.probes ≡ 1)
      × ((allow now b).1.half_open_max_calls ≡ 1)
unfolding allow
allow_probe now b h late one = ground arith

refuse_exhausted :
    (now : ℕ) (b : CircuitBreaker)
    → b.state ≡ half_open
    → b.half_open_max_calls ≤ b.probes
    → (allow now b ≡ (false, b)) × (seconds_until_probe now b ≡ 0)
unfolding allow seconds_until_probe
refuse_exhausted now b h out = ground arith

-- A half-open circuit whose probes are all out refuses, and tells the caller to wait for 0 seconds.
pub guarded_call_exhausted :
    {S A : Type 0} (runtime : Runtime S) (retry : Bool) (on_retry : Option (M S (Unit {0})))
    (d : Dependency) (policy : DependencyPolicy) (operation : M S A) (w : World S)
    → (get_breaker d policy w).state ≡ half_open
    → (get_breaker d policy w).half_open_max_calls ≤ (get_breaker d policy w).probes
    → guarded_call runtime retry on_retry d policy operation w
      ≡ (raise (domain (dependency_unavailable 0)), set_breaker d (get_breaker d policy w) w)
guarded_call_exhausted {S} {A} runtime retry on_retry d policy operation w h out =
    let b = get_breaker d policy w in
    let refused = refuse_exhausted w.now b h out in
    guarded_call_refused runtime retry on_retry d policy operation w (ap (λ r. r.0) refused.0)
    ∙ ap {B = Outcome A × World S}
        (λ c. (
          raise (domain (dependency_unavailable (seconds_until_probe w.now c))),
          set_breaker d c w,
        ))
        (ap (λ r. r.1) refused.0)
    ∙ ap {B = Outcome A × World S}
        (λ (n : ℕ). (raise (domain (dependency_unavailable n)), set_breaker d b w)) refused.1

module _ {S A : Type 0} (runtime : Runtime S) (retry : Bool) (on_retry : Option (M S (Unit {0})))
    (d : Dependency) (policy : DependencyPolicy) (operation : M S A) (w : World S)
    {w' : World S} where
  -- A cancelled call reports nothing to the breaker.
  cancelled_silent :
      {b : CircuitBreaker}
      → allow w.now (get_breaker d policy w) ≡ (true, b)
      → operation (set_breaker d b w) ≡ (raise cancelled, w')
      → w'.now ≤ w.now + policy.call_timeout
      → guarded_call runtime retry on_retry d policy operation w ≡ (raise cancelled, w')
  unfolding guarded_call admitted_call timeout settle is_transient
  cancelled_silent {b} allowed h prompt = ground (
    arith,
    with_retry_answer runtime.tenacity operation (effective_policy retry policy) d
        (if retry then on_retry else none) (set_breaker d b w) (ap (λ r. r.0) h) refl,
  )

  -- When the one probe of a half-open circuit is cancelled, the circuit never closes by itself:
  -- every later call, at whatever time, is refused, its operation does not run, and it is told to
  -- wait for 0 seconds.
  pub cancelled_probe_wedges :
      {B : Type 0} (operation' : M S B) (later : World S)
      → (get_breaker d policy w).state ≡ opened
      → (get_breaker d policy w).opened_at + (get_breaker d policy w).reset_micros ≤ w.now
      → (get_breaker d policy w).half_open_max_calls ≡ 1
      → operation (set_breaker d (allow w.now (get_breaker d policy w)).1 w) ≡ (raise cancelled, w')
      → w'.breakers ≡ (set_breaker d (allow w.now (get_breaker d policy w)).1 w).breakers
      → w'.now ≤ w.now + policy.call_timeout
      → later.breakers ≡ w'.breakers
      → (guarded_call runtime retry on_retry d policy operation w ≡ (raise cancelled, w'))
        × (guarded_call runtime retry on_retry d policy operation' later ≡ (
          raise (domain (dependency_unavailable 0)),
          set_breaker d (get_breaker d policy later) later,
        ))
  cancelled_probe_wedges operation' later h late one c same prompt after =
      let b = (allow w.now (get_breaker d policy w)).1 in
      let probing = allow_probe w.now (get_breaker d policy w) h late one in
      let found : get_breaker d policy later ≡ b =
        get_breaker_cong d policy later (set_breaker d b w) (after ∙ same)
        ∙ get_breaker-set_breaker d policy b w in
      (
        cancelled_silent (ground arith) c prompt,
        guarded_call_exhausted runtime retry on_retry d policy operation' later (rw found probing.1)
            (rw found (omega arith)),
      )

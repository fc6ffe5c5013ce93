-- ===== src/Resilience/Guard/Kept.antt =====
-- Predicates that a call of the guard (app/resilience/guard.py) starts and ends with: one of the
-- state outside of the resilience layer, and one of the results.
use scalable_content_platfor.Base.{
  ℕ, zero, suc, ◌+◌, ◌≤◌, Bool, true, false, Option, none, arith, inl, inr,
}
use scalable_content_platfor.Effects.{Outcome, Outcome-cases, ok, raise, World, M}
use scalable_content_platfor.Resilience.Breaker.{allow}
use scalable_content_platfor.Resilience.Policy.{Dependency, DependencyPolicy, backoff_bound}
use scalable_content_platfor.Resilience.Retry.{
  Retrying, before_attempt, attempt, conclude, with_retry,
}
use scalable_content_platfor.Resilience.Retry.Attempts.{loop, loop_law}
use scalable_content_platfor.Resilience.Guard.{
  Runtime, get_breaker, set_breaker, heard_success, heard_failure, effective_policy, settle,
  timeout, admitted_call, guarded_call,
}

-- What is asked of a result.
abbrev pub Returns : {A : Type 0} → (A → Type 0) → Outcome A → Type 0
Returns Q (ok a) = Q a
Returns Q (raise e) = Unit

-- A result and the state behind it.
abbrev pub Post : {S A : Type 0} → (S → Type 0) → (A → Type 0) → Outcome A × World S → Type 0
Post J Q r = J r.1.services × Returns Q r.0

-- A computation that keeps `J`, and whose results are in `Q`.
abbrev pub Kept : {S A : Type 0} → (S → Type 0) → (A → Type 0) → M S A → Type 0
Kept {S} J Q m = (w : World S) → J w.services → Post J Q (m w)

-- What keeps `J` without a result.
abbrev pub KeptBy : {S : Type 0} → (S → Type 0) → (World S → World S) → Type 0
KeptBy {S} J f = (w : World S) → J w.services → J (f w).services

abbrev pub Anything : {A : Type 0} → A → Type 0
Anything a = Unit

-- The libraries keep `J` where they run nothing of the platform's, and a call that they interrupt
-- keeps it if it would have kept it to its end.
pub record RuntimeKeeps {S : Type 0} (J : S → Type 0) (runtime : Runtime S) : Type 1 where
  pub pause_kept : (bound : ℕ) → KeptBy J (runtime.tenacity.pause bound)
  pub interrupted_kept :
      (A : Type 0) (call : M S A) (deadline : ℕ)
      → ((w : World S) → J w.services → J (call w).1.services)
      → KeptBy J (runtime.interrupted A call deadline)

module _ {S A : Type 0} (J : S → Type 0) (Q : A → Type 0) (operation : M S A)
    (kept : Kept J Q operation) where
  module _ (on_retry : Option (M S (Unit {0})))
      (retry_kept : (n : ℕ) → Kept J Anything (before_attempt n on_retry)) where
    attempt-Post :
        (s : ℕ × World S)
        → J s.1.services
        → J (attempt operation on_retry s).1.1.services × Returns Q (attempt operation on_retry s).0
    unfolding attempt
    attempt-Post (n, w) j = elim (Outcome-cases (before_attempt (n + 1) on_retry w).0) [
      | inl (a, e) ↦
          ground (arith, retry_kept (n + 1) w j, kept (before_attempt (n + 1) on_retry w).1)
      | inr (x, e) ↦ ground (arith, retry_kept (n + 1) w j)
    ]

    module _ (tenacity : Retrying S) (pause_kept : (bound : ℕ) → KeptBy J (tenacity.pause bound))
        (policy : DependencyPolicy) where
      loop-Post :
          (m k : ℕ) (s : ℕ × World S)
          → policy.attempts ≤ suc (k + m)
          → J s.1.services
          → J (loop tenacity operation policy on_retry k s).1.1.services
            × Returns Q (loop tenacity operation policy on_retry k s).0
      loop-Post zero k s h j =
          ground (arith, loop_law tenacity operation policy on_retry k s, attempt-Post s j)
      loop-Post (suc m) k s h j =
          let s' = (attempt operation on_retry s).1 in
          let w' = tenacity.pause (backoff_bound policy k) s'.1 in
          ground (
            arith,
            loop_law tenacity operation policy on_retry k s,
            attempt-Post s j,
            pause_kept (backoff_bound policy k) s'.1,
            loop-Post m (suc k) (s'.0, w'),
          )

      conclude-Post :
          (dependency : Dependency) (retry_after : ℕ) (r : Outcome A × (ℕ × World S))
          → J r.1.1.services
          → Returns Q r.0
          → Post J Q (conclude dependency retry_after r)
      unfolding conclude
      conclude-Post dependency retry_after (ok a, s) j q = ground arith
      conclude-Post dependency retry_after (raise e, s) j q = ground arith

      pub with_retry-Kept :
          (dependency : Dependency)
          → Kept J Q (with_retry tenacity operation policy dependency on_retry)
      unfolding with_retry
      with_retry-Kept dependency w j =
          let l = loop-Post policy.attempts 0 (0, w) (omega arith) j in
          conclude-Post dependency policy.breaker_reset
            (loop tenacity operation policy on_retry 0 (0, w)) l.0 l.1

module _ {S : Type 0} (J : S → Type 0) (runtime : Runtime S) (libraries : RuntimeKeeps J runtime)
    {A : Type 0} (Q : A → Type 0) where
  settle-Post :
      (dependency : Dependency) (policy : DependencyPolicy) (r : Outcome A × World S)
      → Post J Q r
      → Post J Q (settle dependency policy r)
  unfolding settle heard_success heard_failure
  settle-Post dependency policy (ok a, w) p = p
  settle-Post dependency policy (raise e, w) p = ground arith

  timeout-Kept :
      (budget : ℕ) (call : M S A) → Kept J Q call → Kept J Q (timeout runtime budget call)
  unfolding timeout
  timeout-Kept budget call kept w j =
      let cut = libraries.interrupted_kept A call (w.now + budget) (λ v k. (kept v k).0) w j in
      ground (arith, kept w j, cut)

  before_none : (n : ℕ) → Kept J Anything (before_attempt {S = S} n none)
  unfolding before_attempt
  before_none n w j = (j, tt)

  settled-Kept :
      (dependency : Dependency) (policy : DependencyPolicy) (call : M S A)
      → Kept J Q call
      → Kept J Q (λ w. settle dependency policy (timeout runtime policy.call_timeout call w))
  settled-Kept dependency policy call kept w j =
      settle-Post dependency policy (timeout runtime policy.call_timeout call w)
        (timeout-Kept policy.call_timeout call kept w j)

  admitted_call-Kept :
      (retry : Bool) (on_retry : Option (M S (Unit {0}))) (dependency : Dependency)
      (policy : DependencyPolicy) (operation : M S A)
      → ((n : ℕ) → Kept J Anything (before_attempt n on_retry))
      → Kept J Q operation
      → Kept J Q (admitted_call runtime retry on_retry dependency policy operation)
  unfolding admitted_call
  admitted_call-Kept true on_retry dependency policy operation retry_kept kept =
      settled-Kept dependency policy
        (with_retry runtime.tenacity operation (effective_policy true policy) dependency on_retry)
        (with_retry-Kept J Q operation kept on_retry retry_kept runtime.tenacity
          libraries.pause_kept (effective_policy true policy) dependency)
  admitted_call-Kept false on_retry dependency policy operation retry_kept kept =
      settled-Kept dependency policy
        (with_retry runtime.tenacity operation (effective_policy false policy) dependency none)
        (with_retry-Kept J Q operation kept none before_none runtime.tenacity libraries.pause_kept
          (effective_policy false policy) dependency)

  -- What a computation keeps, its guarded call keeps: a predicate of the state outside of the
  -- resilience layer that the operation, the rollback and the libraries keep holds when the guarded
  -- call is over, however often it was retried, cut off or refused; and a result is one that the
  -- operation gives in such a state.
  pub guarded_call-Kept :
      (retry : Bool) (on_retry : Option (M S (Unit {0}))) (dependency : Dependency)
      (policy : DependencyPolicy) (operation : M S A)
      → ((n : ℕ) → Kept J Anything (before_attempt n on_retry))
      → Kept J Q operation
      → Kept J Q (guarded_call runtime retry on_retry dependency policy operation)
  unfolding guarded_call
  guarded_call-Kept retry on_retry dependency policy operation retry_kept kept w j =
      let b = (allow w.now (get_breaker dependency policy w)).1 in
      let run =
        admitted_call-Kept retry on_retry dependency policy operation retry_kept kept
          (set_breaker dependency b w) j in
      ground (arith, run)

-- ===== src/Resilience/Retry/Elapsed.antt =====
-- The calls and the time of `with_retry` of app/resilience/retry.py.
use scalable_content_platfor.Base.{
  ℕ, zero, suc, ◌+◌, ◌-◌, ◌*◌, ◌≤◌, ◌≡◌, refl, ap, Option, some, arith,
}
use scalable_content_platfor.Resilience.Policy.{
  Dependency, DependencyPolicy, backoff_bound, sum_backoff, worst_case_backoff,
}
use scalable_content_platfor.Effects.{Outcome, ok, raise, World, M}
use scalable_content_platfor.Resilience.Retry.{
  Retrying, before_attempt, attempt, conclude, with_retry,
}
use scalable_content_platfor.Resilience.Retry.Attempts.{loop, loop_law}

conclude_services :
    {S A : Type 0} (dependency : Dependency) (retry_after : ℕ) (r : Outcome A × (ℕ × World S))
    → ((conclude dependency retry_after r).1.services ≡ r.1.1.services)
      × ((conclude dependency retry_after r).1.now ≡ r.1.1.now)
      × ((conclude dependency retry_after r).1.breakers ≡ r.1.1.breakers)
unfolding conclude
conclude_services dependency retry_after (ok a, s) = ground arith
conclude_services dependency retry_after (raise e, s) = ground arith

sum_backoff-suc :
    (p : DependencyPolicy) (n : ℕ) → sum_backoff p (suc n) ≡ sum_backoff p n + backoff_bound p n
unfolding sum_backoff
sum_backoff-suc p n = refl

-- Both bounds in the length of the range.
sum_backoff-split :
    (p : DependencyPolicy) (k m : ℕ)
    → (sum_backoff p k ≤ sum_backoff p (k + m))
      × (sum_backoff p (k + suc m) ≡ sum_backoff p (suc k + m))
sum_backoff-split p k zero =
    let e : k + 0 ≡ k = omega arith in
    let e' : k + 1 ≡ suc k + 0 = omega arith in (rw e (omega arith), ap (sum_backoff p) e')
sum_backoff-split p k (suc m) =
    let e : k + suc m ≡ suc (k + m) = omega arith in
    let e' : k + suc (suc m) ≡ suc k + suc m = omega arith in
    (
      rw e (omega (arith, sum_backoff-suc p (k + m), (sum_backoff-split p k m).0)),
      ap (sum_backoff p) e',
    )

module _ {S A : Type 0} (tenacity : Retrying S) (operation : M S A) (policy : DependencyPolicy)
    (on_retry : M S (Unit {0})) (c r : ℕ) (quick : (w : World S) → (operation w).1.now ≤ w.now + c)
    (quick_rollback : (w : World S) → (on_retry w).1.now ≤ w.now + r) where
  open tenacity use {pause, pause_bounded}

  attempt-le : (s : ℕ × World S) → (attempt operation (some on_retry) s).1.1.now ≤ s.1.now + (r + c)
  unfolding attempt
  attempt-le (n, w) = ground (arith, quick w, quick (on_retry w).1, quick_rollback w)

  loop-le :
      (m k : ℕ) (s : ℕ × World S)
      → policy.attempts ≤ suc (k + m)
      → (loop tenacity operation policy (some on_retry) k s).1.1.now + sum_backoff policy k
        ≤ s.1.now + suc m * (r + c) + sum_backoff policy (k + m)
  loop-le zero k s h =
      ground (arith, loop_law tenacity operation policy (some on_retry) k s, attempt-le s)
  loop-le (suc m) k s h =
      let s' = (attempt operation (some on_retry) s).1 in
      let w' = pause (backoff_bound policy k) s'.1 in
      ground (
        arith,
        loop_law tenacity operation policy (some on_retry) k s,
        attempt-le s,
        pause_bounded (backoff_bound policy k) s'.1,
        loop-le m (suc k) (s'.0, w'),
        sum_backoff-suc policy k,
        sum_backoff-split policy k m,
        sum_backoff-split policy k (suc m),
      )

  -- When a call takes at most `c` and a rollback at most `r`, and the policy makes an attempt, the
  -- caller waits no longer than `attempts` times both, and the policy's worst-case backoff.
  pub with_retry_elapsed :
      (dependency : Dependency) (w : World S)
      → 1 ≤ policy.attempts
      → (with_retry tenacity operation policy dependency (some on_retry) w).1.now
        ≤ w.now + policy.attempts * (r + c) + worst_case_backoff policy
  unfolding with_retry worst_case_backoff sum_backoff
  with_retry_elapsed dependency w h =
      let n = policy.attempts - 1 in
      let e : 0 + n ≡ policy.attempts - 1 = omega arith in
      let e' : suc n ≡ policy.attempts = omega arith in
      let bound = loop-le n 0 (0, w) (omega arith) in
      rw ((conclude_services dependency policy.breaker_reset _).1)
        (omega (arith, bound, ap (sum_backoff policy) e, ap (λ (t : ℕ). t * (r + c)) e'))

module _ {S A : Type 0} (tenacity : Retrying S) (operation : M S A) (policy : DependencyPolicy)
    (on_retry : Option (M S (Unit {0}))) (calls : S → ℕ)
    (counted : (w : World S) → calls (operation w).1.services ≡ calls w.services + 1)
    (uncounted_rollback : (n : ℕ) (w : World S)
      → calls (before_attempt n on_retry w).1.services ≡ calls w.services)
    (uncounted_pause : (n : ℕ) (w : World S)
      → calls (tenacity.pause n w).services ≡ calls w.services) where
  open tenacity use {pause}

  attempt-calls :
      (s : ℕ × World S) → calls (attempt operation on_retry s).1.1.services ≤ calls s.1.services + 1
  unfolding attempt
  attempt-calls (n, w) =
      let w' = (before_attempt (n + 1) on_retry w).1 in
      ground (arith, counted w', uncounted_rollback (n + 1) w)

  loop-calls :
      (m k : ℕ) (s : ℕ × World S)
      → policy.attempts ≤ suc (k + m)
      → calls (loop tenacity operation policy on_retry k s).1.1.services
        ≤ calls s.1.services + suc m
  loop-calls zero k s h =
      ground (arith, loop_law tenacity operation policy on_retry k s, attempt-calls s)
  loop-calls (suc m) k s h =
      let s' = (attempt operation on_retry s).1 in
      let w' = pause (backoff_bound policy k) s'.1 in
      ground (
        arith,
        loop_law tenacity operation policy on_retry k s,
        attempt-calls s,
        uncounted_pause (backoff_bound policy k) s'.1,
        loop-calls m (suc k) (s'.0, w'),
      )

  -- For any count of the operation's calls that rollbacks and pauses leave alone, and a policy of
  -- at least one attempt: the calls are at most `attempts`, and the policy of a write, which makes
  -- one attempt, makes at most one call.
  pub with_retry_calls :
      (dependency : Dependency) (w : World S)
      → 1 ≤ policy.attempts
      → calls (with_retry tenacity operation policy dependency on_retry w).1.services
        ≤ calls w.services + policy.attempts
  unfolding with_retry
  with_retry_calls dependency w h =
      rw ((conclude_services dependency policy.breaker_reset _).0)
        (omega (arith, loop-calls (policy.attempts - 1) 0 (0, w)))

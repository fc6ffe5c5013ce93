-- ===== src/Resilience/Retry/Attempts.antt =====
-- The attempts of `with_retry` of app/resilience/retry.py, and the outcome that its caller sees.
use scalable_content_platfor.Base.{
  ℕ, zero, suc, ◌+◌, ◌≤◌, ◌<◌, ◌≡◌, true, false, Option, arith, if◌then◌else◌,
}
use scalable_content_platfor.Resilience.Policy.{Dependency, DependencyPolicy, backoff_bound}
use scalable_content_platfor.Effects.{Exception, Outcome, ok, raise, World, M}
use scalable_content_platfor.Resilience.Retry.{
  is_transient, translate, after_attempt, Retrying, before_attempt, attempt, conclude, with_retry,
}

-- A policy that makes one attempt runs the operation exactly once, never the `on_retry` callback,
-- and counts nothing; a transient fault is translated, and all else is passed on as it is.
abbrev pub report {ℓ} : {A : Type ℓ} → ℕ → Outcome A → Outcome A
report retry_after (ok a) = ok a
report retry_after (raise e) = raise (if is_transient e then translate retry_after e else e)

-- A raised exception is one that no retry would mend.
abbrev pub IsFinal {ℓ} : {A : Type ℓ} → Outcome A → Type 0
IsFinal (ok a) = Unit
IsFinal (raise e) = is_transient e ≡ false

translate-IsFinal :
    (retry_after : ℕ) (e : Exception) → is_transient (translate retry_after e) ≡ false
unfolding is_transient translate
translate-IsFinal retry_after e = ground arith

pub conclude-IsFinal :
    {S A : Type 0} (dependency : Dependency) (retry_after : ℕ) (r : Outcome A × (ℕ × World S))
    → IsFinal (conclude dependency retry_after r).0
unfolding conclude
conclude-IsFinal dependency retry_after (ok a, s) = tt
conclude-IsFinal dependency retry_after (raise e, s) =
    ground (arith, translate-IsFinal retry_after e)

module _ {S A : Type 0} (tenacity : Retrying S) where
  open tenacity use {iterate, iterate_law, pause}

  -- Whatever happens, the caller never sees a transient fault: it is retried away, or translated
  -- into one of the two errors that the API answers with.
  pub with_retry-IsFinal :
      (operation : M S A) (policy : DependencyPolicy) (dependency : Dependency)
      (on_retry : Option (M S (Unit {0}))) (w : World S)
      → IsFinal (with_retry tenacity operation policy dependency on_retry w).0
  unfolding with_retry
  with_retry-IsFinal operation policy dependency on_retry w = conclude-IsFinal _ _ _

  -- With at most one attempt, the operation runs once, and the caller gets its result, or its raise
  -- translated.
  pub with_retry_once :
      (operation : M S A) (policy : DependencyPolicy) (dependency : Dependency)
      (on_retry : Option (M S (Unit {0}))) (w : World S)
      → policy.attempts ≤ 1
      → with_retry tenacity operation policy dependency on_retry w
        ≡ (report policy.breaker_reset (operation w).0, (operation w).1)
  unfolding with_retry attempt conclude before_attempt
  with_retry_once operation policy dependency on_retry w h = ground (
    arith,
    iterate_law A policy.attempts policy.backoff_base policy.backoff_max is_transient
        (attempt operation on_retry) 0 (0, w),
  )

  -- An answer is not retried: when the first call raises anything that is no transient fault, the
  -- caller sees that very exception, and the operation has run once.
  pub with_retry_answer :
      (operation : M S A) (policy : DependencyPolicy) (dependency : Dependency)
      (on_retry : Option (M S (Unit {0}))) (w : World S) {e : Exception}
      → (operation w).0 ≡ raise e
      → is_transient e ≡ false
      → with_retry tenacity operation policy dependency on_retry w ≡ (raise e, (operation w).1)
  unfolding with_retry attempt conclude before_attempt
  with_retry_answer operation policy dependency on_retry w h t = ground (
    arith,
    iterate_law A policy.attempts policy.backoff_base policy.backoff_max is_transient
        (attempt operation on_retry) 0 (0, w),
  )

  module _ (operation : M S A) (policy : DependencyPolicy)
      (on_retry : Option (M S (Unit {0}))) where
    -- The loop after `k` failed attempts.
    abbrev pub loop : ℕ → ℕ × World S → Outcome A × (ℕ × World S)
    loop k =
        iterate A policy.attempts policy.backoff_base policy.backoff_max is_transient
          (attempt operation on_retry) k

    pub loop_law :
        (k : ℕ) (s : ℕ × World S)
        → loop k s
          ≡ after_attempt policy.attempts is_transient
              (λ s'. loop (suc k) (s'.0, pause (backoff_bound policy k) s'.1))
              k
              (attempt operation on_retry s)
    loop_law k s =
        iterate_law A policy.attempts policy.backoff_base policy.backoff_max is_transient
          (attempt operation on_retry) k s

    -- From here the operation fails transiently `j` times and then succeeds.
    abbrev pub Recovers : ℕ → ℕ → ℕ × World S → A → Type 0
    Recovers zero k s a = (attempt operation on_retry s).0 ≡ ok a
    Recovers (suc j) k s a =
        let (r, s') = attempt operation on_retry s in
        (e : Exception) × (r ≡ raise e)
        × (is_transient e ≡ true)
        × Recovers j (suc k) (s'.0, pause (backoff_bound policy k) s'.1) a

    loop-Recovers :
        (j k : ℕ) (s : ℕ × World S) (a : A)
        → Recovers j k s a
        → j + k < policy.attempts
        → (loop k s).0 ≡ ok a
    loop-Recovers zero k s a h lt = ground (arith, loop_law k s)
    loop-Recovers (suc j) k s a h lt =
        let s' = (attempt operation on_retry s).1 in
        ground (
          arith,
          loop_law k s,
          loop-Recovers j (suc k) (s'.0, pause (backoff_bound policy k) s'.1) a h.3,
        )

    conclude_ok :
        (dependency : Dependency) (retry_after : ℕ) (r : Outcome A × (ℕ × World S)) (a : A)
        → r.0 ≡ ok a
        → (conclude dependency retry_after r).0 ≡ ok a
    unfolding conclude
    conclude_ok dependency retry_after (ok _, s) a h = h
    conclude_ok dependency retry_after (raise e, s) a h = cc

    -- An operation that fails transiently fewer times than the policy has attempts, with the
    -- rollback and the pause between them, and then succeeds, succeeds for the caller.
    pub with_retry-Recovers :
        (j : ℕ) (dependency : Dependency) (w : World S) (a : A)
        → Recovers j 0 (0, w) a
        → j < policy.attempts
        → (with_retry tenacity operation policy dependency on_retry w).0 ≡ ok a
    unfolding with_retry
    with_retry-Recovers j dependency w a h lt =
        conclude_ok dependency policy.breaker_reset _ a (loop-Recovers j 0 (0, w) a h (omega arith))

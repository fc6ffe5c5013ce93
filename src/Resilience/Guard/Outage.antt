-- ===== src/Resilience/Guard/Outage.antt =====
-- A dependency that fails every call of the guard (app/resilience/guard.py).
use scalable_content_platfor.Base.{
  ℕ, zero, suc, ◌+◌, ◌≤◌, ◌<◌, ◌≡◌, refl, ap, sym, ◌∙◌, true, false, none, arith,
}
use scalable_content_platfor.Resilience.Breaker.{
  CircuitBreaker, closed, opened, allow, record_failure, seconds_until_probe,
}
use scalable_content_platfor.Resilience.Policy.{Dependency, mysql, redis, DependencyPolicy}
use scalable_content_platfor.Resilience.Retry.{is_transient, translate}
use scalable_content_platfor.Resilience.Retry.Attempts.{report}
use scalable_content_platfor.Effects.{
  Exception, domain, dependency_unavailable, Outcome, raise, World, M,
}
use scalable_content_platfor.Resilience.Guard.{
  Runtime, get_breaker, set_breaker, settle, guarded_write,
}
use scalable_content_platfor.Resilience.Guard.Verdict.{
  settle-report, guarded_write_once, guarded_call_refused,
}

pub get_breaker-set_breaker :
    {S : Type 0} (d : Dependency) (policy : DependencyPolicy) (b : CircuitBreaker) (w : World S)
    → get_breaker d policy (set_breaker d b w) ≡ b
unfolding get_breaker
get_breaker-set_breaker mysql policy b w = refl
get_breaker-set_breaker redis policy b w = refl

-- The breaker is looked up in the registry alone.
pub get_breaker_cong :
    {S : Type 0} (d : Dependency) (policy : DependencyPolicy) (w w' : World S)
    → w.breakers ≡ w'.breakers
    → get_breaker d policy w ≡ get_breaker d policy w'
unfolding get_breaker
get_breaker_cong d policy w w' e = rw e

settle_down :
    {S : Type 0} (A : Type 0) (d : Dependency) (policy : DependencyPolicy) (e : Exception)
    (w : World S)
    → is_transient e ≡ true
    → get_breaker d policy (settle {A = A} d policy (report policy.breaker_reset (raise e), w)).1
      ≡ record_failure w.now (get_breaker d policy w)
unfolding settle is_transient translate get_breaker
settle_down A d policy e w h = ground arith

pub allow_closed : (now : ℕ) (b : CircuitBreaker) → b.state ≡ closed → allow now b ≡ (true, b)
unfolding allow
allow_closed now b h = ground arith

-- So many writes in a row.
unfoldable pub outage :
    {S A : Type 0} → Runtime S → Dependency → DependencyPolicy → M S A → ℕ → World S → World S
outage runtime d policy operation zero w = w
outage runtime d policy operation (suc n) w =
    (guarded_write runtime d policy operation (outage runtime d policy operation n w)).1

allow_opened :
    (now : ℕ) (b : CircuitBreaker)
    → b.state ≡ opened
    → now < b.opened_at + b.reset_micros
    → allow now b ≡ (false, b)
unfolding allow
allow_opened now b h early = ground arith

-- Until the reset interval is over, a write on an open circuit is refused: the operation does not
-- run, and nothing changes but the registry, which holds the same breaker.
pub guarded_write_opened :
    {S A : Type 0} (runtime : Runtime S) (d : Dependency) (policy : DependencyPolicy)
    (operation : M S A) (w : World S)
    → (get_breaker d policy w).state ≡ opened
    → w.now < (get_breaker d policy w).opened_at + (get_breaker d policy w).reset_micros
    → guarded_write runtime d policy operation w ≡ (
      raise (domain (dependency_unavailable (seconds_until_probe w.now (get_breaker d policy w)))),
      set_breaker d (get_breaker d policy w) w,
    )
unfolding guarded_write
guarded_write_opened {S} {A} runtime d policy operation w h early =
    let b = get_breaker d policy w in
    let refused = allow_opened w.now b h early in
    guarded_call_refused runtime false none d policy operation w (ap (λ r. r.0) refused)
    ∙ ap {B = Outcome A × World S}
        (λ c. (
          raise (domain (dependency_unavailable (seconds_until_probe w.now c))),
          set_breaker d c w,
        ))
        (ap (λ r. r.1) refused)

module _ {S A : Type 0} (runtime : Runtime S) (d : Dependency) (policy : DependencyPolicy)
    (operation : M S A) (e : Exception) (faulty : is_transient e ≡ true)
    (fails : (w : World S) → (operation w).0 ≡ raise e)
    (silent : (w : World S) → (operation w).1.breakers ≡ w.breakers)
    (prompt : (w : World S) → (operation w).1.now ≤ w.now + policy.call_timeout) where
  -- One write that fails on a closed circuit is one failure on its breaker.
  write_fails :
      (w : World S)
      → (get_breaker d policy w).state ≡ closed
      → let w' = (guarded_write runtime d policy operation w).1 in
        get_breaker d policy w'
        ≡ record_failure
            (operation (set_breaker d (get_breaker d policy w) w)).1.now
            (get_breaker d policy w)
  write_fails w c =
      let b = get_breaker d policy w in
      let w₁ = set_breaker d b w in
      let once =
        guarded_write_once runtime d policy operation w (allow_closed w.now b c) (prompt w₁)
        ∙ sym (settle-report d policy (operation w₁).0 (operation w₁).1) in
      let failed : (settle d policy
            (report policy.breaker_reset (operation w₁).0, (operation w₁).1))
          ≡ settle d policy (report policy.breaker_reset (raise e), (operation w₁).1) =
        ap (λ r. settle d policy (report policy.breaker_reset r, (operation w₁).1)) (fails w₁) in
      ap (λ r. get_breaker d policy r.1) (once ∙ failed)
      ∙ settle_down A d policy e (operation w₁).1 faulty
      ∙ ap (record_failure (operation w₁).1.now) (
          get_breaker_cong d policy (operation w₁).1 w₁ (silent w₁)
          ∙ get_breaker-set_breaker d policy b w)

  module _ (start : World S) (healthy : (get_breaker d policy start).state ≡ closed)
      (fresh : (get_breaker d policy start).failures ≡ 0) where
    -- Below the threshold the circuit stays closed, and counts the failures.
    pub outage_counts :
        (n : ℕ)
        → n < (get_breaker d policy start).failure_threshold
        → let b = get_breaker d policy (outage runtime d policy operation n start) in
          (b.state ≡ closed)
          × (b.failures ≡ n)
          × (b.failure_threshold ≡ (get_breaker d policy start).failure_threshold)
          × (b.reset_micros ≡ (get_breaker d policy start).reset_micros)
    unfolding outage record_failure
    outage_counts zero h = ground arith
    outage_counts (suc n) h =
        let ih = outage_counts n (omega arith) in
        rw (write_fails (outage runtime d policy operation n start) ih.0) (ground arith)

    -- The write that makes the threshold opens the circuit.
    outage_opens :
        (n : ℕ)
        → suc n ≡ (get_breaker d policy start).failure_threshold
        → let b = get_breaker d policy (outage runtime d policy operation (suc n) start) in
          (b.state ≡ opened) × (b.reset_micros ≡ (get_breaker d policy start).reset_micros)
    unfolding outage record_failure
    outage_opens n h =
        let ih = outage_counts n (omega arith) in
        rw (write_fails (outage runtime d policy operation n start) ih.0) (ground arith)

    -- For an operation that raises one transient fault each time, within its deadline, and leaves
    -- the breakers alone: after exactly `failure_threshold` failing writes on a healthy circuit,
    -- and not before, the circuit is open; and while it is, a further write at any later time
    -- inside the reset interval does not run its operation and gets 503 with the time that is left.
    pub outage_ends_calls :
        (n : ℕ) (later : World S)
        → suc n ≡ (get_breaker d policy start).failure_threshold
        → later.breakers ≡ (outage runtime d policy operation (suc n) start).breakers
        → later.now
          < (get_breaker d policy (outage runtime d policy operation (suc n) start)).opened_at
            + (get_breaker d policy start).reset_micros
        → let b = get_breaker d policy (outage runtime d policy operation (suc n) start) in
          ((get_breaker d policy (outage runtime d policy operation n start)).state ≡ closed)
          × (b.state ≡ opened)
          × (guarded_write runtime d policy operation later ≡ (
            raise (domain (dependency_unavailable (seconds_until_probe later.now b))),
            set_breaker d b later,
          ))
    outage_ends_calls n later h same early =
        let found =
          get_breaker_cong d policy later (outage runtime d policy operation (suc n) start) same in
        let now_open = outage_opens n h in
        (
          (outage_counts n (omega arith)).0,
          now_open.0,
          rw found at (
              guarded_write_opened runtime d policy operation later (rw found now_open.0)
                (rw found (omega arith))),
        )

-- ===== src/Resilience/Policy/Bounds.antt =====
-- The sets of settings that `build_policies` of app/resilience/policy.py accepts.
use scalable_content_platfor.Base.{◌≤◌, ◌<◌, ◌≡◌, ◌⊎◌, arith}
use scalable_content_platfor.Base.Int.{pos, ◌≤ℤ◌, ◌<ℤ◌}
use scalable_content_platfor.Config.{
  Settings, Variable, ok, value_error, db_connect_timeout_seconds, db_statement_timeout_seconds,
  db_call_timeout_seconds, redis_socket_timeout, retry_backoff_base_seconds,
  retry_backoff_max_seconds, breaker_reset_seconds, db_retry_attempts, breaker_failure_threshold,
  breaker_half_open_max_calls,
}
use scalable_content_platfor.Resilience.Policy.{
  Dependency, mysql, redis, DependencyPolicy, Policies, policy_of, database_policy, cache_policy,
  sum_backoff, worst_case_backoff, build_policies,
}

-- The settings that the platform may start with.
pub record Acceptable (s : Settings) : Type 0 where
  pub connect : pos 0 <ℤ s.db_connect_timeout_seconds
  pub statement : pos 0 <ℤ s.db_statement_timeout_seconds
  pub call : s.db_statement_timeout_seconds <ℤ s.db_call_timeout_seconds
  pub socket : pos 0 <ℤ s.redis_socket_timeout
  pub base : pos 0 <ℤ s.retry_backoff_base_seconds
  pub ceiling : s.retry_backoff_base_seconds ≤ℤ s.retry_backoff_max_seconds
  pub reset : pos 0 <ℤ s.breaker_reset_seconds
  pub attempts : pos 0 <ℤ s.db_retry_attempts
  pub threshold : pos 0 <ℤ s.breaker_failure_threshold
  pub probes : pos 0 <ℤ s.breaker_half_open_max_calls
  pub budget : pos (worst_case_backoff (database_policy s)) <ℤ s.db_call_timeout_seconds

-- Which settings make the named variable the fault.
abbrev pub IsAtFault : Variable → Settings → Type 0
IsAtFault db_connect_timeout_seconds s = s.db_connect_timeout_seconds ≤ℤ pos 0
IsAtFault db_statement_timeout_seconds s = s.db_statement_timeout_seconds ≤ℤ pos 0
IsAtFault db_call_timeout_seconds s =
    (s.db_call_timeout_seconds ≤ℤ pos 0)
    ⊎ (s.db_call_timeout_seconds ≤ℤ s.db_statement_timeout_seconds)
IsAtFault redis_socket_timeout s = s.redis_socket_timeout ≤ℤ pos 0
IsAtFault retry_backoff_base_seconds s = s.retry_backoff_base_seconds ≤ℤ pos 0
IsAtFault retry_backoff_max_seconds s = s.retry_backoff_max_seconds <ℤ s.retry_backoff_base_seconds
IsAtFault breaker_reset_seconds s = s.breaker_reset_seconds ≤ℤ pos 0
IsAtFault db_retry_attempts s =
    (s.db_retry_attempts ≤ℤ pos 0)
    ⊎ (s.db_call_timeout_seconds ≤ℤ pos (worst_case_backoff (database_policy s)))
IsAtFault breaker_failure_threshold s = s.breaker_failure_threshold ≤ℤ pos 0
IsAtFault breaker_half_open_max_calls s = s.breaker_half_open_max_calls ≤ℤ pos 0
IsAtFault _ s = ⊥

-- Acceptable settings are not refused: both policies are built.
pub build_policies_of_Acceptable :
    (s : Settings)
    → Acceptable s
    → build_policies s ≡ ok (record { database = database_policy s; cache = cache_policy s })
unfolding build_policies database_policy
build_policies_of_Acceptable s a = ground arith

-- What was built, was built from acceptable settings.
pub build_policies-Acceptable :
    (s : Settings) {ps : Policies} → build_policies s ≡ ok ps → Acceptable s
unfolding build_policies database_policy
build_policies-Acceptable s h = ground arith

-- A refusal names a variable that is at fault.
pub build_policies_names :
    (s : Settings) {v : Variable} → build_policies s ≡ value_error v → IsAtFault v s
unfolding build_policies database_policy
build_policies_names s {v} h = ground arith

-- What the guard relies on in either policy.
pub record IsUsable (p : DependencyPolicy) : Type 0 where
  pub tries : 1 ≤ p.attempts
  pub finite : 0 < p.call_timeout
  pub failures : 1 ≤ p.breaker_failure_threshold
  pub reset : 0 < p.breaker_reset
  pub probes : 1 ≤ p.breaker_half_open_max_calls
  pub waits : worst_case_backoff p < p.call_timeout

IsUsable-database : (s : Settings) (ps : Policies) → build_policies s ≡ ok ps → IsUsable ps.database
unfolding build_policies database_policy
IsUsable-database s ps h = ground arith

IsUsable-cache : (s : Settings) (ps : Policies) → build_policies s ≡ ok ps → IsUsable ps.cache
unfolding build_policies cache_policy worst_case_backoff sum_backoff
IsUsable-cache s ps h = ground arith

-- Both policies of a validated set are usable: at least one attempt, a positive ceiling, a breaker
-- that can open, probe and close, and waits between the attempts that fit under the ceiling.
pub policy_of-IsUsable :
    (s : Settings) {ps : Policies} (d : Dependency)
    → build_policies s ≡ ok ps
    → IsUsable (policy_of d ps)
policy_of-IsUsable s {ps} mysql h = IsUsable-database s ps h
policy_of-IsUsable s {ps} redis h = IsUsable-cache s ps h

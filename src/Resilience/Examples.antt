-- ===== src/Resilience/Examples.antt =====
-- Runs of the retries and the guard on a dependency whose only state is the number of calls, and
-- the theorems at concrete inputs.
use scalable_content_platfor.Base.{◌≡◌, refl, some, arith}
use scalable_content_platfor.Config.{Settings, Checked}
use scalable_content_platfor.Config
use scalable_content_platfor.Resilience.Breaker.{allow, record_failure, record_success}
use scalable_content_platfor.Resilience.Policy.{
  mysql, redis, policy_of, build_policies, database_policy, cache_policy, worst_case_backoff,
  sum_backoff,
}
use scalable_content_platfor.Resilience.Policy.Bounds.{Acceptable, IsUsable, policy_of-IsUsable}
use scalable_content_platfor.Effects.{operational_error, ok}
use scalable_content_platfor.Resilience.Retry.{is_transient, attempt, with_retry}
use scalable_content_platfor.Resilience.Retry.Attempts.{with_retry-Recovers}
use scalable_content_platfor.Resilience.Guard.{get_breaker, guarded_call, new_breaker}
use scalable_content_platfor.Resilience.Concrete.{tenacity, runtime, iterate}
use scalable_content_platfor.Resilience.Fixtures.{
  defaults, database, policies, negative, start, flaky, rollback,
}

build_policies-defaults : build_policies defaults ≡ Checked.ok policies
unfolding build_policies database_policy cache_policy worst_case_backoff sum_backoff
build_policies-defaults = refl

defaults-Acceptable : Acceptable defaults
unfolding database_policy worst_case_backoff sum_backoff
defaults-Acceptable = ground arith

build_policies-negative : build_policies negative ≡ Checked.value_error Config.redis_socket_timeout
unfolding build_policies
build_policies-negative = refl

policy_of-IsUsable_example : IsUsable (policy_of redis policies)
policy_of-IsUsable_example = policy_of-IsUsable defaults redis build_policies-defaults

program : Unit {0}
unfolding with_retry attempt is_transient tenacity iterate runtime guarded_call get_breaker allow
    record_success record_failure new_breaker
program = tt

with_retry-flaky : (with_retry tenacity flaky database mysql (some rollback) start).0 ≡ ok 7
unfolding program
with_retry-flaky = refl

with_retry-Recovers_example :
    (with_retry tenacity flaky database mysql (some rollback) start).0 ≡ ok 7
unfolding program
with_retry-Recovers_example =
    with_retry-Recovers tenacity flaky database (some rollback) 1 mysql start 7
      (operational_error, refl, refl, refl) (omega arith)

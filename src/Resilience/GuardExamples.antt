-- ===== src/Resilience/GuardExamples.antt =====
-- Runs of the guard, and its theorems at concrete inputs.
use scalable_content_platfor.Base.{ℕ, ◌≡◌, refl, true, some, [], ◌∷◌, arith}
use scalable_content_platfor.Resilience.Breaker.{
  CircuitBreaker, closed, opened, half_open, gauge, transition, allow, record_failure,
  record_success, seconds_until_probe,
}
use scalable_content_platfor.Resilience.Policy.{mysql}
use scalable_content_platfor.Effects.{
  operational_error, domain, article_not_found, dependency_unavailable, cancelled, raise, World, M,
}
use scalable_content_platfor.Resilience.Retry.{is_transient, attempt, with_retry}
use scalable_content_platfor.Resilience.Retry.Attempts.{IsFinal}
use scalable_content_platfor.Resilience.Guard.{
  get_breaker, set_breaker, heard_success, heard_failure, guarded_call, guarded_write, new_breaker,
}
use scalable_content_platfor.Resilience.Guard.Verdict.{
  guarded_call-IsFinal, guarded_call_answer, is_answer, guarded_write_once,
}
use scalable_content_platfor.Resilience.Guard.Outage.{outage, outage_ends_calls}
use scalable_content_platfor.Resilience.Guard.Cancelled.{cancelled_probe_wedges}
use scalable_content_platfor.Resilience.Concrete.{tenacity, runtime, iterate}
use scalable_content_platfor.Resilience.Fixtures.{database, empty, start, answer, flaky, rollback}

program : Unit {0}
unfolding with_retry attempt is_transient tenacity iterate runtime guarded_call get_breaker allow
    record_success record_failure new_breaker
program = tt

-- An open circuit, a second into its interval, and the same one after it.
abbrev broken : CircuitBreaker
broken = record {
  failure_threshold = 5;
  reset_micros = 10000000;
  half_open_max_calls = 1;
  state = opened;
  failures = 0;
  opened_at = 0;
  probes = 0;
  published = gauge closed ∷ [];
}

abbrev refusing : World ℕ
refusing = record start { breakers = record empty { mysql_breaker = some broken } }

abbrev recovering : World ℕ
recovering = record refusing { now = 10000000 }

guarded_call-IsFinal_example :
    IsFinal (guarded_call runtime true (some rollback) mysql database flaky start).0
guarded_call-IsFinal_example =
    guarded_call-IsFinal runtime true (some rollback) mysql database flaky start

abbrev missing : M ℕ ℕ
missing = answer (raise (domain article_not_found))

guarded_call_answer_example :
    guarded_call runtime true (some rollback) mysql database missing start ≡ (
      raise (domain article_not_found),
      heard_success mysql database (missing (set_breaker mysql (new_breaker database) start)).1,
    )
unfolding allow get_breaker new_breaker is_answer is_transient
guarded_call_answer_example =
    guarded_call_answer runtime true (some rollback) mysql database missing start
      {b = new_breaker database} refl refl refl (omega arith)

guarded_write_once_example : guarded_write runtime mysql database flaky start ≡ (
  raise (domain (dependency_unavailable 10000000)),
  heard_failure mysql database (flaky (set_breaker mysql (new_breaker database) start)).1,
)
unfolding allow get_breaker new_breaker is_transient
guarded_write_once_example =
    guarded_write_once runtime mysql database flaky start {b = new_breaker database} refl
      (omega arith)

abbrev failing : M ℕ ℕ
failing = answer (raise operational_error)

operational-is_transient : is_transient operational_error ≡ true
unfolding is_transient
operational-is_transient = refl

abbrev after_outage : ℕ → World ℕ
after_outage n = outage runtime mysql database failing n start

outage_ends_calls_example :
    let b = get_breaker mysql database (after_outage 5) in
    ((get_breaker mysql database (after_outage 4)).state ≡ closed)
    × (b.state ≡ opened)
    × (guarded_write runtime mysql database failing (after_outage 5) ≡ (
      raise (domain (dependency_unavailable (seconds_until_probe (after_outage 5).now b))),
      set_breaker mysql b (after_outage 5),
    ))
unfolding program guarded_write outage
outage_ends_calls_example =
    outage_ends_calls runtime mysql database failing operational_error operational-is_transient
      (λ w. refl) (λ w. refl) (λ w. omega arith) start refl refl 4 (after_outage 5) refl refl
      (omega arith)

abbrev cancelling : M ℕ ℕ
cancelling = answer (raise cancelled)

abbrev probed : CircuitBreaker
probed = record broken {
  state = half_open;
  probes = 1;
  published = transition half_open ∷ broken.published;
}

cancelled_probe_wedges_example :
    (guarded_call runtime true (some rollback) mysql database cancelling recovering
      ≡ cancelling (set_breaker mysql probed recovering))
    × (guarded_call runtime true
          (some rollback)
          mysql
          database
          flaky
          (record (set_breaker mysql probed recovering) { now = 99000000 })
        ≡ (
          raise (domain (dependency_unavailable 0)),
          record (set_breaker mysql probed recovering) { now = 99000000 },
        ))
unfolding allow get_breaker
cancelled_probe_wedges_example =
    cancelled_probe_wedges runtime true (some rollback) mysql database cancelling recovering flaky
      (record (set_breaker mysql probed recovering) { now = 99000000 }) refl (omega arith) refl refl
      refl (omega arith) refl

-- ===== src/Resilience/Breaker/Examples.antt =====
-- Runs of a breaker, and the theorems at concrete inputs.
use scalable_content_platfor.Base.{◌≡◌, refl, [], ◌∷◌, arith}
use scalable_content_platfor.Resilience.Breaker.{
  CircuitBreaker, closed, opened, half_open, gauge, transition, init, allow, record_failure,
}
use scalable_content_platfor.Resilience.Breaker.Events.{ask, success, failure, run}
use scalable_content_platfor.Resilience.Breaker.Invariant.{IsValid, init-IsValid, run-IsValid}
use scalable_content_platfor.Resilience.Breaker.Counting.{Counts, run-Counts, run_opens}

abbrev fresh : CircuitBreaker
fresh = record {
  failure_threshold = 2;
  reset_micros = 10000000;
  half_open_max_calls = 1;
  state = closed;
  failures = 0;
  opened_at = 0;
  probes = 0;
  published = gauge closed ∷ [];
}

abbrev broken : CircuitBreaker
broken = record fresh {
  state = opened;
  opened_at = 5;
  published = transition opened ∷ gauge closed ∷ [];
}

abbrev probing : CircuitBreaker
probing = record broken {
  state = half_open;
  probes = 1;
  published = transition half_open ∷ broken.published;
}

init-fresh : init 2 10000000 1 ≡ fresh
unfolding init
init-fresh = refl

run-broken : run (failure 5 ∷ failure 4 ∷ []) fresh ≡ broken
unfolding run record_failure
run-broken = refl

run-probing : run (ask 10000005 ∷ []) broken ≡ probing
unfolding run allow
run-probing = refl

broken-IsValid : IsValid broken
broken-IsValid = ground arith

run-IsValid_example : IsValid (run (ask 7 ∷ failure 5 ∷ failure 4 ∷ []) (init 2 10000000 1))
run-IsValid_example =
    run-IsValid (ask 7 ∷ failure 5 ∷ failure 4 ∷ [])
      (init-IsValid 2 10000000 1 (omega arith) (omega arith))

run-Counts_example :
    Counts 2
      (failure 4 ∷ success ∷ failure 3 ∷ [])
      (run (failure 4 ∷ success ∷ failure 3 ∷ []) (init 2 10 1))
run-Counts_example = run-Counts 2 10 1 (failure 4 ∷ success ∷ failure 3 ∷ []) (omega arith)

run_opens_example :
    let b = run (failure 9 ∷ failure 4 ∷ success ∷ []) (init 2 10 1) in
    (b.state ≡ opened) × (b.opened_at ≡ 9) × (b.failures ≡ 0)
run_opens_example = run_opens 2 10 1 9 (failure 4 ∷ success ∷ []) (omega arith) refl

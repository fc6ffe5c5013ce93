-- ===== src/Resilience/Breaker/Recovery.antt =====
-- Open and half-open breakers (app/resilience/breaker.py).
use scalable_content_platfor.Base.{
  ℕ, ◌+◌, ◌-◌, ◌≤◌, ◌<◌, ◌≡◌, refl, true, false, List, [], ◌∷◌, All, length, min, arith,
  if◌then◌else◌,
}
use scalable_content_platfor.Resilience.Breaker.{
  CircuitBreaker, closed, opened, half_open, allow, record_success, record_failure,
  seconds_until_probe,
}
use scalable_content_platfor.Resilience.Breaker.Events.{ask, success, failure, run}
use scalable_content_platfor.Resilience.Breaker.Invariant.{IsValid}

-- Callers that ask at the given times, one after another: how many were admitted, and the breaker
-- that they leave.
pub ask_all : List ℕ → CircuitBreaker → ℕ × CircuitBreaker
ask_all [] b = (0, b)
ask_all (now ∷ times) b =
    let (admitted, b') = allow now b in
    let (n, b'') = ask_all times b' in (if admitted then n + 1 else n, b'')

-- An open breaker refuses everybody who asks before the reset interval is over, and stays as it
-- is.
pub ask_all-opened :
    (times : List ℕ) (b : CircuitBreaker)
    → b.state ≡ opened
    → All (λ now. now < b.opened_at + b.reset_micros) times
    → ask_all times b ≡ (0, b)
unfolding ask_all allow
ask_all-opened [] b e early = refl
ask_all-opened (now ∷ times) b e early = ground (arith, ask_all-opened times b e early.1)

-- Of the callers that find a half-open breaker, exactly as many are admitted as probes are left.
pub ask_all-half_open :
    (times : List ℕ) (b : CircuitBreaker)
    → b.state ≡ half_open
    → b.probes ≤ b.half_open_max_calls
    → (ask_all times b).0 ≡ min (length times) (b.half_open_max_calls - b.probes)
unfolding ask_all allow
ask_all-half_open [] b e h = omega arith
ask_all-half_open (now ∷ times) b e h = ground (
  arith,
  ask_all-half_open times b e h,
  ask_all-half_open times (record b { probes = b.probes + 1 }) e,
)

-- Once its probes are out, a half-open breaker refuses at every time, however late, and stays as
-- it is: only an answer from a probe can move it.
pub ask_all-exhausted :
    (times : List ℕ) (b : CircuitBreaker)
    → b.state ≡ half_open
    → b.half_open_max_calls ≤ b.probes
    → ask_all times b ≡ (0, b)
unfolding ask_all allow
ask_all-exhausted [] b e h = refl
ask_all-exhausted (now ∷ times) b e h = ground (arith, ask_all-exhausted times b e h)

-- The wait that an open breaker tells its callers is enough: one who asks that much later is
-- admitted as the first probe.
pub allow-seconds_until_probe :
    (now : ℕ) (b : CircuitBreaker)
    → IsValid b
    → b.state ≡ opened
    → let (admitted, b') = allow (now + seconds_until_probe now b) b in
      (admitted ≡ true) × (b'.state ≡ half_open) × (b'.probes ≡ 1)
unfolding allow seconds_until_probe
allow-seconds_until_probe now b v e = ground arith

-- The wait that an open breaker tells its callers is no longer than needed, above its floor of a
-- millisecond: one who asks earlier is refused.
pub allow_before_seconds_until_probe :
    (now earlier : ℕ) (b : CircuitBreaker)
    → b.state ≡ opened
    → 1000 < seconds_until_probe now b
    → earlier < seconds_until_probe now b
    → allow (now + earlier) b ≡ (false, b)
unfolding allow seconds_until_probe
allow_before_seconds_until_probe now earlier b e floor h = ground arith

-- After the reset interval one probe decides: its answer closes the circuit with no failure
-- counted, and its fault opens it again for a whole interval from that moment.
pub probe_decides :
    (now later : ℕ) (b : CircuitBreaker)
    → IsValid b
    → b.state ≡ opened
    → b.opened_at + b.reset_micros ≤ now
    → let probing = run (ask now ∷ []) b in
      let healed = run (success ∷ ask now ∷ []) b in
      let reopened = run (failure later ∷ ask now ∷ []) b in
      (probing.state ≡ half_open)
      × (healed.state ≡ closed)
      × (healed.failures ≡ 0)
      × (reopened.state ≡ opened)
      × (reopened.opened_at ≡ later)
unfolding run allow record_success record_failure
probe_decides now later b v e h = ground arith

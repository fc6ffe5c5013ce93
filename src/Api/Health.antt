-- ===== src/Api/Health.antt =====
-- The readiness endpoint (app/api/routers/health.py). The probes of the two dependencies are the
-- libraries' and parameters.
use scalable_content_platfor.Base.{ℕ, Bool, true, false, not, ◌||◌, if◌then◌else◌}
use scalable_content_platfor.Effects.{
  Exception, cancelled, Outcome, ok, raise, World, M, ◌>>=◌, pure,
}
use scalable_content_platfor.Resilience.Guard.{Runtime, timeout}

-- `"ok"`, or `f"error: …"` with the class of the exception.
pub data Verdict : Type 0 where
  up : Verdict
  error : Exception → Verdict

abbrev pub is_up : Verdict → Bool
is_up up = true
is_up (error e) = false

pub data Readiness : Type 0 where
  ready degraded unready : Readiness

pub record ReadyResponse : Type 0 where
  pub status_code : ℕ
  pub status : Readiness
  pub mysql : Verdict
  pub redis : Verdict

-- `except Exception`: a cancellation is none.
abbrev pub describe : {S A : Type 0} → Outcome A × World S → Outcome Verdict × World S
describe (ok a, w) = (ok up, w)
describe (raise cancelled, w) = (raise cancelled, w)
describe (raise e, w) = (ok (error e), w)

abbrev pub ready_response : Verdict → Verdict → ReadyResponse
ready_response mysql redis =
    if not (is_up mysql)
    then record { status_code = 503; status = Readiness.unready; mysql = mysql; redis = redis }
    else record {
      status_code = 200;
      status =
          if not (is_up mysql) || not (is_up redis) then Readiness.degraded else Readiness.ready;
      mysql = mysql;
      redis = redis;
    }

module _ {S : Type 0} (runtime : Runtime S) where
  -- `_check`
  unfoldable pub check : {A : Type 0} → M S A → ℕ → M S Verdict
  unfolding timeout
  check probe budget w = describe (timeout runtime budget probe w)

  -- The handler of `/health/ready`.
  unfoldable pub ready_check : {A : Type 0} → M S (Unit {0}) → M S A → ℕ → M S ReadyResponse
  unfolding check
  ready_check probe_mysql ping budget = do
    mysql ← check probe_mysql budget
    redis ← check ping budget
    pure (ready_response mysql redis)

-- ===== src/Effects.antt =====
-- Exceptions, outcomes, and the world that the platform's coroutines run in: a monotonic clock, the
-- process-wide breakers, the counters, and whatever else there is (`S`: the database, the cache
-- server, other requests). The exceptions are those of app/services/exceptions.py and the classes
-- that the handlers tell apart; message texts are left out.
use scalable_content_platfor.Base.{◌≡◌, refl, ◌⊎◌, inl, inr, ℕ, List, ◌∷◌, Option, some}
use scalable_content_platfor.Resilience.Breaker.{CircuitBreaker}
use scalable_content_platfor.Resilience.Policy.{Dependency, mysql, redis}

-- `retry_after` is in microseconds.
pub data DomainError : Type 0 where
  unauthenticated forbidden article_not_found conflict : DomainError
  precondition_required invalid_cursor : DomainError
  upstream_timeout dependency_unavailable : ℕ → DomainError

-- `cancelled` is the one that is no `Exception` (asyncio's CancelledError); `redis_other` is any
-- RedisError that is neither of the two above it, and `other` any exception not named here.
pub data Exception : Type 0 where
  operational_error interface_error disconnection_error : Exception
  redis_connection_error redis_timeout_error redis_other : Exception
  timeout_error os_error : Exception
  domain : DomainError → Exception
  other : ℕ → Exception
  cancelled : Exception

pub data Outcome {ℓ} (A : Type ℓ) : Type ℓ where
  ok : A → Outcome A
  raise : Exception → Outcome A

-- To split on an outcome and keep the equation.
pub Outcome-cases :
    {A : Type 0} (r : Outcome A) → ((a : A) × (r ≡ ok a)) ⊎ ((e : Exception) × (r ≡ raise e))
Outcome-cases (ok a) = inl (a, refl)
Outcome-cases (raise e) = inr (e, refl)

pub data RetryResult : Type 0 where
  success exhausted : RetryResult

pub data CacheEntity : Type 0 where
  article list : CacheEntity

pub data CacheOperation : Type 0 where
  get set delete incr lock : CacheOperation

pub data Metric : Type 0 where
  retries : Dependency → RetryResult → Metric
  dependency_timeout : Dependency → Metric
  cache_hit cache_miss : CacheEntity → Metric
  cache_error : CacheOperation → Metric

-- `_BREAKERS`: the keys are the two dependencies.
pub record Registry : Type 0 where
  pub mysql_breaker : Option CircuitBreaker
  pub redis_breaker : Option CircuitBreaker

pub record World (S : Type 0) : Type 0 where
  pub now : ℕ
  pub breakers : Registry
  pub counted : List Metric
  pub services : S

abbrev pub M : Type 0 → Type 0 → Type 0
M S A = World S → Outcome A × World S

infixl 5 ◌>>=◌ ◌>>◌
abbrev pub ◌>>=◌ : {S A B : Type 0} → M S A → (A → M S B) → M S B
◌>>=◌ m f w = let (r, w') = m w in elim r [ ok a ↦ f a w' | raise e ↦ (raise e, w') ]

abbrev pub ◌>>◌ : {S B : Type 0} → M S (Unit {0}) → M S B → M S B
m >> k = m >>= λ _. k

module _ {S A : Type 0} where
  abbrev pub pure : A → M S A
  pure a w = (ok a, w)

  abbrev pub throw : Exception → M S A
  throw e w = (raise e, w)

  abbrev pub gets : (World S → A) → M S A
  gets f w = (ok (f w), w)

module _ {S : Type 0} where
  abbrev pub modify : (World S → World S) → M S (Unit {0})
  modify f w = (ok tt, f w)

  abbrev pub count : Metric → World S → World S
  count m w = record w { counted = m ∷ w.counted }

abbrev pub find_breaker : Dependency → Registry → Option CircuitBreaker
find_breaker mysql r = r.mysql_breaker
find_breaker redis r = r.redis_breaker

abbrev pub put_breaker : Dependency → CircuitBreaker → Registry → Registry
put_breaker mysql b r = record r { mysql_breaker = some b }
put_breaker redis b r = record r { redis_breaker = some b }

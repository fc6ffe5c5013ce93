-- ===== src/Api/Errors.antt =====
-- The responses that exceptions become (app/api/errors.py), and the wait that they tell the client.
use scalable_content_platfor.Base.{
  ℕ, ◌+◌, ◌*◌, ◌/◌, ◌≤◌, ◌<◌, ◌≡◌, true, Option, none, some, max, arith,
}
use scalable_content_platfor.Text.{Text, codes}
use scalable_content_platfor.Effects.{
  Exception, DomainError, Outcome, ok, raise, domain, cancelled, unauthenticated, forbidden,
  article_not_found, conflict, precondition_required, invalid_cursor, upstream_timeout,
  dependency_unavailable,
}
use scalable_content_platfor.Api.{Response, error_response}
use scalable_content_platfor.Resilience.Breaker.{
  CircuitBreaker, opened, half_open, allow, seconds_until_probe,
}
use scalable_content_platfor.Resilience.Breaker.Invariant.{IsValid}

-- `_DOMAIN_STATUS`
unfoldable pub domain_status : DomainError → ℕ × Text
domain_status unauthenticated = (401, codes "UNAUTHENTICATED")
domain_status forbidden = (403, codes "FORBIDDEN")
domain_status article_not_found = (404, codes "ARTICLE_NOT_FOUND")
domain_status conflict = (409, codes "CONFLICT")
domain_status precondition_required = (422, codes "VALIDATION_ERROR")
domain_status invalid_cursor = (422, codes "VALIDATION_ERROR")
domain_status (upstream_timeout _) = (504, codes "UPSTREAM_TIMEOUT")
domain_status (dependency_unavailable _) = (503, codes "SERVICE_UNAVAILABLE")

-- `max(1, ceil(seconds))`, of microseconds.
unfoldable pub retry_after_header : ℕ → ℕ
retry_after_header micros = max 1 ((micros + 999999) / 1000000)

-- `isinstance(exc, DependencyDownError)`, with its `retry_after` as a header.
unfoldable pub domain_headers : DomainError → Option ℕ
unfolding retry_after_header
domain_headers (upstream_timeout retry_after) = some (retry_after_header retry_after)
domain_headers (dependency_unavailable retry_after) = some (retry_after_header retry_after)
domain_headers _ = none

-- The handler `domain_error`. (The count of the degraded response is `degraded_reason`.)
unfoldable pub domain_error : DomainError → Response
unfolding domain_status domain_headers
domain_error e =
    let (status, code) = domain_status e in error_response status code (domain_headers e)

-- `_DEGRADED_REASONS`
unfoldable pub degraded_reason : DomainError → Option Text
degraded_reason (upstream_timeout _) = some (codes "upstream_timeout")
degraded_reason (dependency_unavailable _) = some (codes "breaker_open")
degraded_reason _ = none

-- The registered handlers: the domain's, and the fallback for every other `Exception`. A
-- cancellation is none, and passes.
unfoldable pub handle : Exception → Outcome Response
unfolding domain_error
handle (domain e) = ok (domain_error e)
handle cancelled = raise cancelled
handle _ = ok (error_response 500 (codes "INTERNAL_ERROR") none)

-- The header is the wait in whole seconds, rounded up, but for the floor of one second: a client
-- that honours it waits at least as long as it was told to, and less than a second longer.
pub retry_after_header_bounds :
    (micros : ℕ)
    → (1 ≤ retry_after_header micros)
      × (micros ≤ retry_after_header micros * 1000000)
      × (1 ≤ micros → retry_after_header micros * 1000000 < micros + 1000000)
unfolding retry_after_header
retry_after_header_bounds micros = ground arith

-- A client that a valid open breaker refused, and that comes back after the whole seconds of the
-- `Retry-After` header, is admitted, as the first probe, if nobody else has asked in between.
pub allow-retry_after_header :
    (now : ℕ) (b : CircuitBreaker)
    → IsValid b
    → b.state ≡ opened
    → let wait = retry_after_header (seconds_until_probe now b) in
      let (admitted, b') = allow (now + wait * 1000000) b in
      (admitted ≡ true) × (b'.state ≡ half_open) × (b'.probes ≡ 1)
unfolding allow seconds_until_probe
allow-retry_after_header now b valid e =
    ground (arith, retry_after_header_bounds (seconds_until_probe now b))

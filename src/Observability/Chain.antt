-- ===== src/Observability/Chain.antt =====
-- The outer middleware (RequestIDMiddleware, AccessLogMiddleware and MetricsMiddleware of
-- app/api/middleware.py) around the rest of the application. Latencies are left out.
pub mod Recorded
use scalable_content_platfor.Base.{
  ℕ, ◌+◌, ◌≤◌, ◌≡◌, ◌⊎◌, inl, inr, refl, Bool, true, false, ◌||◌, List, [], ◌∷◌, Option, none, some,
  leb, arith, if◌then◌else◌,
}
use scalable_content_platfor.Text.{Text, codes, decimal, text_eq}
use scalable_content_platfor.Effects.{
  Exception, cancelled, Outcome, Outcome-cases, ok, raise, World, M,
}
use scalable_content_platfor.Api.{Response}
use scalable_content_platfor.Observability.Context.{sanitize_request_id}
use scalable_content_platfor.Observability.Series.{Metrics, observe_request}

pub data Level : Type 0 where
  info warning error exception : Level

-- A record of the access log.
pub record AccessRecord : Type 0 where
  pub level : Level
  pub request_id : Option Text
  pub user_id : Option Text
  pub route : Text
  pub method : Text
  pub status : ℕ

-- What the chain reports to, with the request id in the log's context, and the rest of the world.
pub record Reported (S : Type 0) : Type 0 where
  pub context : Option Text
  pub records : List AccessRecord
  pub metrics : Metrics
  pub server : S

-- A request, with the route and the user that are found once it has been handled.
pub record Incoming : Type 0 where
  pub method : Text
  pub request_id_header : Option Text
  pub minted_id : Text
  pub route : Text
  pub user_id : Option Text

-- A response and its X-Request-ID header.
pub record Tagged : Type 0 where
  pub response : Response
  pub request_id : Text

-- `logger.error`, `logger.warning` or `logger.info`
abbrev pub level_of : ℕ → Level
level_of status = if leb 500 status then error else if leb 400 status then warning else info

-- `route == METRICS_PATH or route in PROBE_PATHS`
unfoldable pub is_unobserved : Text → Bool
unfolding text_eq
is_unobserved route =
    text_eq route (codes "/metrics")
    || text_eq route (codes "/health/live")
    || text_eq route (codes "/health/ready")

-- `sanitize_request_id(request.headers.get(REQUEST_ID_HEADER))`
unfoldable pub request_id_of : Incoming → Text
unfolding sanitize_request_id
request_id_of request = sanitize_request_id request.minted_id request.request_id_header

-- `except Exception`, which a cancellation is not.
abbrev pub finish :
    {S : Type 0}
    → (ℕ → World (Reported S) → World (Reported S))
    → (World (Reported S) → World (Reported S))
    → Outcome Response × World (Reported S)
    → Outcome Response × World (Reported S)
finish done failed (ok response, w) = (ok response, done response.status w)
finish done failed (raise cancelled, w) = (raise cancelled, w)
finish done failed (raise e, w) = (raise e, failed w)

-- `clear_contextvars`, and then `bind_contextvars(request_id=…)`.
abbrev pub bind_request_id : {S : Type 0} → Text → World (Reported S) → World (Reported S)
bind_request_id request_id w = record w {
  services = record w.services { context = some request_id };
}

module _ {S : Type 0} (request : Incoming) where
  -- `AccessLogMiddleware._fields`, and the call of the logger.
  unfoldable pub log_request : Level → ℕ → World (Reported S) → World (Reported S)
  log_request level status w = record w {
    services = record w.services {
      records =
          record {
            level = level;
            request_id = w.services.context;
            user_id = request.user_id;
            route = request.route;
            method = request.method;
            status = status;
          }
          ∷ w.services.records;
    };
  }

  -- `MetricsMiddleware._observe`
  unfoldable pub observe_status : ℕ → World (Reported S) → World (Reported S)
  unfolding is_unobserved observe_request
  observe_status status w = if is_unobserved request.route then w else record w {
    services = record w.services {
      metrics = observe_request request.route request.method (decimal status) w.services.metrics;
    };
  }

  unfoldable pub access_log : M (Reported S) Response → M (Reported S) Response
  unfolding log_request
  access_log call_next w =
      finish (λ status. log_request (level_of status) status) (log_request exception 500)
        (call_next w)

  unfoldable pub measure : M (Reported S) Response → M (Reported S) Response
  unfolding observe_status
  measure call_next w = finish observe_status (observe_status 500) (call_next w)

  unfoldable pub tag_request : M (Reported S) Response → M (Reported S) Tagged
  unfolding request_id_of
  tag_request call_next w =
      let request_id = request_id_of request in
      let (r, w') = call_next (bind_request_id request_id w) in
      elim r [
        | ok response ↦ (ok (record { response = response; request_id = request_id }), w')
        | raise e ↦ (raise e, w')
      ]

  -- The three, in the order of the chain.
  unfoldable pub handle : M (Reported S) Response → M (Reported S) Tagged
  unfolding tag_request access_log measure
  handle app = tag_request (access_log (measure app))

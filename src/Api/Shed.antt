-- ===== src/Api/Shed.antt =====
-- Load shedding (`LoadShedMiddleware` of app/api/middleware.py): a counter of the requests inside,
-- a ceiling, and the paths that are exempt.
pub mod Interleaved
use scalable_content_platfor.Base.{
  ℕ, suc, ◌+◌, ◌-◌, ◌≡◌, refl, Bool, true, false, ◌||◌, Option, none, some, leb, arith,
  if◌then◌else◌,
}
use scalable_content_platfor.Base.Int.{ℤ, pos, pos_part, leb_ℤ, ltb_ℤ}
use scalable_content_platfor.Text.{Text, codes, text_eq}
use scalable_content_platfor.Config.{
  Checked, ok, value_error, ◌>>=◌, ◌>>◌, refuse_if, max_inflight_requests, shed_retry_after_seconds,
}
use scalable_content_platfor.Effects.{Outcome}
use scalable_content_platfor.Api.{Response, error_response}
use scalable_content_platfor.Api.Errors.{retry_after_header}

-- `shed` counts `observe_degraded_response(…, "load_shed")`, and `gauge` is the sum of what
-- `track_inflight` was told.
pub record LoadShed : Type 0 where
  pub max_inflight : ℕ
  pub retry_after : ℕ
  pub inflight : ℕ
  pub gauge : ℕ
  pub shed : ℕ

-- `__init__`; the two numbers are as the settings have them, the wait in microseconds.
unfoldable pub init : ℤ → ℤ → Checked LoadShed
init max_inflight retry_after_seconds = do
  refuse_if (ltb_ℤ max_inflight (pos 1)) max_inflight_requests
  refuse_if (leb_ℤ retry_after_seconds (pos 0)) shed_retry_after_seconds
  ok (record {
    max_inflight = pos_part max_inflight;
    retry_after = pos_part retry_after_seconds;
    inflight = 0;
    gauge = 0;
    shed = 0;
  })

-- `path == METRICS_PATH or path in PROBE_PATHS`
unfoldable pub is_exempt : Text → Bool
unfolding text_eq
is_exempt path =
    text_eq path (codes "/metrics")
    || text_eq path (codes "/health/live")
    || text_eq path (codes "/health/ready")

-- What `dispatch` has decided when it first awaits, or returns.
pub data Entry : Type 0 where
  exempt admitted refused : Entry

-- `dispatch` up to its first `await`.
unfoldable pub enter : Text → LoadShed → Entry × LoadShed
unfolding is_exempt
enter path s =
    if is_exempt path
    then (exempt, s)
    else if leb s.max_inflight s.inflight
    then (refused, record s { shed = s.shed + 1 })
    else (admitted, record s { inflight = s.inflight + 1; gauge = s.gauge + 1 })

-- The `finally` of an admitted request, whose slot is counted, so that nothing is cut off at 0.
unfoldable pub leave : LoadShed → LoadShed
leave s = record s { inflight = s.inflight - 1; gauge = s.gauge - 1 }

unfoldable pub refusal : LoadShed → Response
unfolding retry_after_header
refusal s =
    error_response 503 (codes "SERVICE_UNAVAILABLE") (some (retry_after_header s.retry_after))

-- The rest of a request, on the counter that it shares with every other request.
abbrev pub Handler : Type 0
Handler = LoadShed → Outcome Response × LoadShed

-- `try: return await call_next(request)` with its `finally`, from the handler's outcome on: a
-- result, an exception or a cancellation.
abbrev pub after_handler : Outcome Response × LoadShed → Outcome Response × LoadShed
after_handler (Outcome.ok response, s) = (Outcome.ok response, leave s)
after_handler (Outcome.raise e, s) = (Outcome.raise e, leave s)

abbrev pub dispatch_entry : Handler → Entry × LoadShed → Outcome Response × LoadShed
dispatch_entry call_next (exempt, s) = call_next s
dispatch_entry call_next (refused, s) = (Outcome.ok (refusal s), s)
dispatch_entry call_next (admitted, s) = after_handler (call_next s)

unfoldable pub dispatch : Handler → Text → LoadShed → Outcome Response × LoadShed
unfolding enter leave refusal
dispatch call_next path s = dispatch_entry call_next (enter path s)

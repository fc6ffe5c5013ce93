-- ===== src/Api/Examples.antt =====
-- The theorems on app/api at concrete inputs.
use scalable_content_platfor.Base.{
  ℕ, ◌-◌, ◌+◌, ◌*◌, ◌≤◌, ◌≡◌, length, refl, true, [], ◌∷◌, Option, none, some, arith, if◌then◌else◌,
  ◌==◌,
}
use scalable_content_platfor.Base.Int.{pos}
use scalable_content_platfor.Text.{Text, codes, text_eq, partition}
use scalable_content_platfor.Text.{decimal}
use scalable_content_platfor.Text.Decimal.{length-decimal}
use scalable_content_platfor.Effects.{Outcome, ok, raise, cancelled, M}
use scalable_content_platfor.Api.{error_response}
use scalable_content_platfor.Api.Errors.{handle}
use scalable_content_platfor.Api.Cursor.{
  encode_cursor, decode_cursor, overflow_error, max_str_digits,
}
use scalable_content_platfor.Api.Cursor.RoundTrip.{decode_cursor-encode}
use scalable_content_platfor.Api.Cursor.Malformed.{
  IsDecoded, decode_cursor-IsDecoded, decode_cursor_overflow,
}
use scalable_content_platfor.Resilience.Breaker.{
  CircuitBreaker, closed, opened, half_open, gauge, transition, allow, seconds_until_probe,
}
use scalable_content_platfor.Resilience.Fixtures.{start}
use scalable_content_platfor.Api.{Response}
use scalable_content_platfor.Api.Routes.{
  Principal, public, starts_with, is_under, route_requirement, level,
}
use scalable_content_platfor.Api.Auth.{
  HttpRequest, Claims, extract_bearer_token, dispatch, dispatch_agree,
}
use scalable_content_platfor.Api.Errors.{retry_after_header, allow-retry_after_header}
use scalable_content_platfor.Api.Shed
use scalable_content_platfor.Api.Shed.{LoadShed, init, is_exempt, Entry, admitted, refused, enter}
use scalable_content_platfor.Api.Shed.Interleaved.{
  Server, Steps, next, arrive, turn_away, finish, Counted, enter-Counted,
}

extract_bearer_token-spaces :
    extract_bearer_token (some (codes "BEARER  abc ")) ≡ some (codes "abc")
unfolding extract_bearer_token partition text_eq
extract_bearer_token-spaces = refl

route_requirement-unknown : route_requirement (codes "GET") (codes "/v1/articles-export") ≡ public
unfolding route_requirement is_under starts_with text_eq
route_requirement-unknown = refl

-- A token library that knows one token, of a user who is no administrator.
abbrev jwt : Text → Text → Option Claims
jwt key token =
    if text_eq token (codes "abc")
    then some (record { sub = some (codes "7"); role = some (codes "user") })
    else none

abbrev request : HttpRequest
request = record {
  method = codes "GET";
  path = codes "/v1/admin/roles";
  authorization = some (codes "Bearer abc");
}

-- A handler, and one that differs from it only for a principal who is no administrator.
abbrev handler : Option Principal → M ℕ Response
handler p w = (Outcome.ok (record { status = 200; error_code = none; retry_after = none }), w)

abbrev handler' : Option Principal → M ℕ Response
handler' p w =
    (Outcome.ok (record { status = 200 + (2 - level p); error_code = none; retry_after = none }), w)

dispatch_agree_example :
    dispatch jwt (codes "secret") handler request start
    ≡ dispatch jwt (codes "secret") handler' request start
unfolding route_requirement is_under starts_with text_eq
dispatch_agree_example =
    dispatch_agree jwt (codes "secret") handler handler' request start
      (λ p genuine enough. ground arith)

abbrev broken : CircuitBreaker
broken = record {
  failure_threshold = 2;
  reset_micros = 10000000;
  half_open_max_calls = 1;
  state = opened;
  failures = 0;
  opened_at = 5;
  probes = 0;
  published = transition opened ∷ gauge closed ∷ [];
}

allow-retry_after_header_example :
    let wait = retry_after_header (seconds_until_probe 7 broken) in
    let (granted, b') = allow (7 + wait * 1000000) broken in
    (granted ≡ true) × (b'.state ≡ half_open) × (b'.probes ≡ 1)
allow-retry_after_header_example = allow-retry_after_header 7 broken (ground arith) refl

-- A ceiling of one: one request inside, one turned away, the first one's handler raises, and a third
-- one is inside.
abbrev idle : LoadShed
idle = record { max_inflight = 1; retry_after = 1000000; inflight = 0; gauge = 0; shed = 0 }

abbrev busy : LoadShed
busy = record idle { inflight = 1; gauge = 1 }

abbrev after : Server
after = record { shed = record busy { shed = 1 }; inside = 1; probes = 0 }

abbrev path : Text
path = codes "/v1/articles"

full : Steps (record { shed = idle; inside = 0; probes = 0 }) after
unfolding enter is_exempt text_eq Shed.dispatch
full =
    let one : Steps (record { shed = idle; inside = 0; probes = 0 })
        (record { shed = busy; inside = 1; probes = 0 }) =
      next Steps.start (arrive path refl) in
    next
      (next (next one (turn_away path (raise cancelled) idle refl))
        (finish {n = 0} path idle (raise cancelled) refl refl))
      (arrive path refl)

enter-Counted_example :
    (1 ≤ 1)
    × Counted 1 after
    × ((enter path after.shed).0 ≡ (
        if is_exempt path then Entry.exempt else if after.inside == 1 then refused else admitted))
unfolding init
enter-Counted_example = enter-Counted (pos 1) (pos 1000000) path refl full

-- The last microsecond that Python knows, and the one behind it.
decode_cursor-encode_example :
    decode_cursor (encode_cursor (pos 253402300799999999) 42) ≡ ok (253402300799999999, 42)
decode_cursor-encode_example =
    decode_cursor-encode (pos 253402300799999999) 42 (omega arith) (omega arith) (omega arith)

short : length (decimal 253402300800000000) ≤ max_str_digits
short = omega (arith, length-decimal 17 253402300800000000 (omega arith))

decode_cursor_overflow_example :
    (decode_cursor (encode_cursor (pos 253402300800000000) 42) ≡ raise overflow_error)
    × (handle overflow_error ≡ ok (error_response 500 (codes "INTERNAL_ERROR") none))
decode_cursor_overflow_example =
    decode_cursor_overflow 253402300800000000 42 (omega arith) short (omega arith) (omega arith)

decode_cursor-IsDecoded_example : IsDecoded (decode_cursor (codes "not a cursor"))
decode_cursor-IsDecoded_example = decode_cursor-IsDecoded (codes "not a cursor")

-- MySQL answers in time, and Redis not at all.
abbrev probe : M ℕ (Unit {0})
probe w = (ok tt, record w { now = w.now + 1000 })

abbrev hanging : M ℕ (Unit {0})
hanging w = (ok tt, record w { now = w.now + 60000000 })

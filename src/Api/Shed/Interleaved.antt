-- ===== src/Api/Shed/Interleaved.antt =====
-- Requests that interleave at their awaits, on the one counter of `LoadShedMiddleware`
-- (app/api/middleware.py).
use scalable_content_platfor.Base.{ℕ, suc, ◌==◌, ◌≤◌, ◌≡◌, refl, arith, if◌then◌else◌}
use scalable_content_platfor.Base.Int.{ℤ}
use scalable_content_platfor.Text.{Text}
use scalable_content_platfor.Config.{ok}
use scalable_content_platfor.Effects.{Outcome}
use scalable_content_platfor.Api.{Response}
use scalable_content_platfor.Api.Shed.{
  LoadShed, init, is_exempt, Entry, admitted, refused, enter, leave, dispatch,
}

-- The middleware, and how many requests are inside of its handlers: those it admitted, and those
-- that are exempt. The second half is what really runs; the middleware sees only its counter.
pub record Server : Type 0 where
  pub shed : LoadShed
  pub inside : ℕ
  pub probes : ℕ

-- `dispatch` of one request, which entered with its path when the counter was `s`, with a handler
-- that leaves the counter as `s'` and ends with the outcome `r`: what is left of the counter. The
-- other requests that ran in between are in the difference of `s` and `s'`.
abbrev pub left_by : Text → LoadShed → Outcome Response → LoadShed → LoadShed
left_by path s r s' = (dispatch (λ _. (r, s')) path s).1

-- One request goes on at a time. Its `dispatch` enters, and awaits its handler; or turns it away and
-- is over; or the handler that it awaits ends, by a return, an exception or a cancellation, and what
-- `dispatch` does after it is done on the counter as it then stands.
pub data Step : Server → Server → Type 0 where
  arrive :
      {v : Server} (path : Text)
      → (enter path v.shed).0 ≡ admitted
      → Step v (record { shed = (enter path v.shed).1; inside = suc v.inside; probes = v.probes })
  turn_away :
      {v : Server} (path : Text) (r : Outcome Response) (s' : LoadShed)
      → (enter path v.shed).0 ≡ refused
      → Step v (record { shed = left_by path v.shed r s'; inside = v.inside; probes = v.probes })
  probe :
      {v : Server} (path : Text)
      → (enter path v.shed).0 ≡ Entry.exempt
      → Step v (record { shed = (enter path v.shed).1; inside = v.inside; probes = suc v.probes })
  finish :
      {v : Server} {n : ℕ} (path : Text) (s : LoadShed) (r : Outcome Response)
      → v.inside ≡ suc n
      → (enter path s).0 ≡ admitted
      → Step v (record { shed = left_by path s r v.shed; inside = n; probes = v.probes })
  finish_probe :
      {v : Server} {n : ℕ} (path : Text) (s : LoadShed) (r : Outcome Response)
      → v.probes ≡ suc n
      → (enter path s).0 ≡ Entry.exempt
      → Step v (record { shed = left_by path s r v.shed; inside = v.inside; probes = n })

-- Any number of steps, the last one last.
pub data Steps : Server → Server → Type 0 where
  start : {v : Server} → Steps v v
  next : {u v w : Server} → Steps u v → Step v w → Steps u w

-- The counter and its gauge are the number of admitted requests that are inside, which is at most
-- the ceiling.
abbrev pub Counted : ℕ → Server → Type 0
Counted ceiling v =
    (v.shed.inflight ≡ v.inside)
    × (v.shed.gauge ≡ v.inside)
    × (v.inside ≤ ceiling)
    × (v.shed.max_inflight ≡ ceiling)

leave-Counted :
    (ceiling n : ℕ) (v : Server)
    → v.inside ≡ suc n
    → Counted ceiling v
    → Counted ceiling (record { shed = leave v.shed; inside = n; probes = v.probes })
unfolding leave
leave-Counted ceiling n v e c = ground arith

-- What `dispatch` leaves, by what it decided at its entry.
left_by-admitted :
    (path : Text) (s s' : LoadShed) (r : Outcome Response)
    → (enter path s).0 ≡ admitted
    → left_by path s r s' ≡ leave s'
unfolding dispatch
left_by-admitted path s s' (Outcome.ok response) e = ground (arith, e)
left_by-admitted path s s' (Outcome.raise x) e = ground (arith, e)

left_by-refused :
    (path : Text) (s s' : LoadShed) (r : Outcome Response)
    → (enter path s).0 ≡ refused
    → left_by path s r s' ≡ (enter path s).1
unfolding dispatch
left_by-refused path s s' r e = ground (arith, e)

left_by-exempt :
    (path : Text) (s s' : LoadShed) (r : Outcome Response)
    → (enter path s).0 ≡ Entry.exempt
    → left_by path s r s' ≡ s'
unfolding dispatch
left_by-exempt path s s' r e = ground (arith, e)

step-Counted : (ceiling : ℕ) {v w : Server} → Step v w → Counted ceiling v → Counted ceiling w
unfolding enter
step-Counted ceiling (arrive {v} path e) c = ground arith
step-Counted ceiling (turn_away {v} path r s' e) c =
    rw (left_by-refused path v.shed s' r e) (ground arith)
step-Counted ceiling (probe {v} path e) c = ground arith
step-Counted ceiling (finish {v} {n} path s r e a) c =
    rw (left_by-admitted path s v.shed r a) (leave-Counted ceiling n v e c)
step-Counted ceiling (finish_probe {v} path s r e a) c = rw (left_by-exempt path s v.shed r a) c

steps-Counted : (ceiling : ℕ) {v w : Server} → Steps v w → Counted ceiling v → Counted ceiling w
steps-Counted ceiling start c = c
steps-Counted ceiling (next steps step) c =
    step-Counted ceiling step (steps-Counted ceiling steps c)

init-LoadShed :
    (ceiling retry_after : ℤ) {s : LoadShed}
    → init ceiling retry_after ≡ ok s
    → (s.inflight ≡ 0) × (s.gauge ≡ 0) × (1 ≤ s.max_inflight)
unfolding init
init-LoadShed ceiling retry_after e = ground arith

-- However requests interleave, from a new middleware on, and however their handlers end, by a return,
-- an exception or a cancellation: no slot is lost and none is given twice, so the counter is the number of admitted requests inside, at most the ceiling of the settings;
-- and the next request is turned away exactly if its path is not exempt and that many are inside.
pub enter-Counted :
    (ceiling retry_after : ℤ) {s : LoadShed} {v : Server} (path : Text)
    → init ceiling retry_after ≡ ok s
    → Steps (record { shed = s; inside = 0; probes = 0 }) v
    → (1 ≤ s.max_inflight)
      × Counted s.max_inflight v
      × ((enter path v.shed).0 ≡ (
          if is_exempt path
          then Entry.exempt
          else if v.inside == s.max_inflight
          then refused
          else admitted))
unfolding enter
enter-Counted ceiling retry_after {s} {v} path e steps =
    let new = init-LoadShed ceiling retry_after e in
    let counted = steps-Counted s.max_inflight steps (new.0, new.1, omega arith, refl) in
    (new.2, counted, ground arith)

-- ===== src/Db/Session.antt =====
-- One session and one transaction for each request (`get_session` of app/db/session.py), and the
-- queue that waits for its commit (app/db/after_commit.py). The driver's commit and rollback, the
-- handler and what a callback does are parameters. The log lines are left out, and so is the
-- closing of the session.
pub mod Commit
pub mod Engine
mod Examples
use scalable_content_platfor.Base.{Bool, true, false, not, List, [], ◌∷◌, ◌++◌, ℕ, if◌then◌else◌}
use scalable_content_platfor.Effects.{Exception, cancelled, Outcome, ok, raise, World, M}
use scalable_content_platfor.Request.{Invalidation, Request}

module _ {S : Type 0} where
  abbrev set_pending : List Invalidation → World (Request S) → World (Request S)
  set_pending queue w = record w { services = record w.services { pending = queue } }

  unfoldable pub after_commit : Invalidation → World (Request S) → World (Request S)
  after_commit callback w = set_pending (w.services.pending ++ callback ∷ []) w

  unfoldable pub discard_after_commit : World (Request S) → World (Request S)
  discard_after_commit w = set_pending [] w

-- `except Exception`: every exception but the cancellation.
unfoldable pub is_exception : Exception → Bool
is_exception cancelled = false
is_exception _ = true

module _ {S : Type 0} (run : Invalidation → M (Request S) (Unit {0})) where
  -- The loop over the callbacks that were taken off the queue.
  unfoldable pub drain : List Invalidation → M (Request S) (Unit {0})
  drain [] w = (ok tt, w)
  drain (callback ∷ callbacks) w =
      let (r, w') = run callback w in
      let rest = drain callbacks w' in
      elim r [ ok _ ↦ rest | raise e ↦ if is_exception e then rest else (raise e, w') ]

  unfoldable pub drain_after_commit : M (Request S) (Unit {0})
  unfolding drain
  drain_after_commit w = drain w.services.pending (set_pending [] w)

  module _ {A : Type 0} (commit rollback : M (Request S) (Unit {0})) where
    -- `except BaseException`: roll back, drop the queue, raise again. A rollback that raises itself
    -- takes the place of the exception.
    unfoldable pub unwind : Exception → M (Request S) A
    unwind e w =
        let (r, w') = rollback w in
        elim r [ ok _ ↦ (raise e, discard_after_commit w') | raise e' ↦ (raise e', w') ]

    -- What comes after the handler has returned.
    unfoldable pub finish : A → M (Request S) A
    unfolding unwind drain_after_commit
    finish a w =
        let (r, w') = commit w in
        elim r [
          | ok _ ↦
              let (d, w'') = drain_after_commit w' in
              elim d [ ok _ ↦ (ok a, w'') | raise e ↦ (raise e, w'') ]
          | raise e ↦ unwind e w'
        ]

    unfoldable pub get_session : M (Request S) A → M (Request S) A
    unfolding finish unwind
    get_session handler w =
        let (r, w') = handler w in elim r [ ok a ↦ finish a w' | raise e ↦ unwind e w' ]

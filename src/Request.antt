-- ===== src/Request.antt =====
-- What one request carries beside the world: its article cache's latch, and the queue of work that
-- waits for the commit (app/db/after_commit.py, kept on `session.info`).
use scalable_content_platfor.Base.{ℕ, Bool, List, Option}

-- The one callback that the platform registers: the closure `invalidate` of
-- app/services/article_service.py, by what it closes over.
pub record Invalidation : Type 0 where
  pub article_id : Option ℕ
  pub author_id : ℕ

-- `server` is what lies outside of the process: the rows, the keys, and everything else.
pub record Request (S : Type 0) : Type 0 where
  pub degraded : Bool
  pub pending : List Invalidation
  pub server : S

-- ===== src/Db.antt =====
-- The request's transaction (app/db/session.py, app/db/after_commit.py).
pub mod Session

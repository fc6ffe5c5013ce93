-- ===== src/Observability.antt =====
-- What the platform reports about itself (app/observability) and the middleware that reports it
-- (app/api/middleware.py).
pub mod Context
pub mod Labels
pub mod Series
pub mod Sql
pub mod Redact
pub mod Chain
mod Examples

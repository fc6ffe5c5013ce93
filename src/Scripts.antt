-- ===== src/Scripts.antt =====
-- The scripts of the load and chaos tests (scripts).
pub mod Seed
pub mod Faults
pub mod Metadata
mod Examples

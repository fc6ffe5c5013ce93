-- ===== src/Accounts.antt =====
-- Users, their passwords and their tokens (app/repositories/user_repo.py, app/core/security.py,
-- app/services/auth_service.py, app/security/password_policy.py).
pub mod Passwords
pub mod Users
pub mod Login
mod Examples

-- ===== src/Auth.antt =====
-- Authentication: internal/auth.
pub mod Token
pub mod Roster
pub mod Middleware

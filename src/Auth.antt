-- ===== src/Auth.antt =====
-- internal/api: the login guard and the sessions of the administrator.
pub mod Limiter
pub mod Recency
pub mod Lockout
pub mod Sessions
pub mod Forgotten
pub mod Revocation
pub mod Passwords
pub mod Renewal

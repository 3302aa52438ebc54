-- ===== src/Security.antt =====
-- Who may do what: the authorization policy, the login limiter and the second factor of
-- backend/app/platform/security.
pub mod Authorization
pub mod Policy
pub mod RateLimit
pub mod Buckets
pub mod Limits
pub mod Isolation
pub mod Lockout
pub mod Streak
pub mod Totp
mod Tests

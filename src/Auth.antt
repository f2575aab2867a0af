-- ===== src/Auth.antt =====
-- Logging in: infrastructure/auth/redis-login-attempt-limiter.ts and
-- application/auth/login-user.use-case.ts.
pub mod Limiter
pub mod Counter
pub mod Window
pub mod Login
mod Examples

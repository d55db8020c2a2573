-- ===== src/Payments.antt =====
-- internal/payments: the limits on requests.
pub mod RateLimiter
pub mod SandboxQuota
pub mod Credits
mod Examples

-- ===== src/Auth.antt =====
-- internal/auth: what keeps a signed request from being sent twice.
pub mod Replay
pub mod Timestamps
pub mod Nonces
pub mod Observed
pub mod Replays
mod Examples
pub mod Signature

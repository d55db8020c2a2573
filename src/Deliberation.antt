-- ===== src/Deliberation.antt =====
-- The service of internal/deliberation: what it does on top of the store and the ordered log.
pub mod Payloads
pub mod Rollup
pub mod Service
pub mod Signing
pub mod Positions
pub mod Voting
pub mod Commitments
pub mod Ordered
pub mod Resolution
pub mod Withdrawal
pub mod Delegations
mod Examples
pub mod EventBus
pub mod Templates
pub mod Creation
pub mod Access
pub mod Recovery
pub mod Accesses

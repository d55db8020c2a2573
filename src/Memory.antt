-- ===== src/Memory.antt =====
-- internal/store/memory.go: the store of the server in demo mode, which keeps everything in maps.
pub mod Records
pub mod State
pub mod Deliberations
pub mod Positions
pub mod Votes
pub mod Commitments
pub mod Analyses
pub mod Access
pub mod Moderation
pub mod Jobs
pub mod Visibility
pub mod Ballots
pub mod Codes
pub mod Starts
pub mod Running
mod Examples

-- ===== src/Bft.antt =====
-- internal/bft: a replica of chained HotStuff, its durable stores, and the single-node engine.
pub mod Types
pub mod Encoding
pub mod Stores
pub mod Replica
pub mod Chain
pub mod Justify
pub mod Proposals
pub mod Votes
pub mod Views
pub mod Replay
pub mod Engine
pub mod Events
pub mod Leader
pub mod Quorum
mod Examples

-- ===== src/Deliberation/Ordered.antt =====
-- The log comes before the store: what the ordered operations send to the log, and do to the store.
pub mod Effects
pub mod Steps
pub mod Votes
pub mod Verdicts
pub mod Submissions
pub mod Actions

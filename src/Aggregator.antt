-- ===== src/Aggregator.antt =====
-- pylib/vcsreplicator/vcsreplicator/aggregator.py: the offsets (Counts), the copying of messages
-- (Copy) and one iteration of the daemon (Run).
pub mod Counts
pub mod Copy
pub mod Run
mod Tests

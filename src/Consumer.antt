-- ===== src/Consumer.antt =====
-- pylib/vcsreplicator/vcsreplicator/consumer.py: the files of a mirror (Files), what each message
-- does to them (Process, Sync, Delete, Heads), the dispatch with its two decorators (Handle) and
-- the loop (Loop).
pub mod Files
pub mod Io
pub mod Process
pub mod Sync
pub mod Delete
pub mod Heads
pub mod Handle
pub mod Loop
mod Tests

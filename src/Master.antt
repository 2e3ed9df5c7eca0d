-- ===== src/Master.antt =====
-- pylib/vcsreplicator/vcsreplicator/hgext.py: the hooks that write the replication log on the
-- master. Kafka is what it answers to each send (Log); the hooks keep `repo._replicationinfo`
-- (Hooks), and Mercurial calls them in the order of a transaction (Transaction).
pub mod Log
pub mod Hooks
pub mod Transaction
mod Tests

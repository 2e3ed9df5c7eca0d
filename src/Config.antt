-- ===== src/Config.antt =====
-- pylib/vcsreplicator/vcsreplicator/config.py: path rewrites (Rewrite), repository filters (Filter), the
-- loading of both (Load) and the connection to Kafka (Client). `RawConfigParser` is not modelled:
-- `Sections` and `Parser` are what it answers.
pub mod Rewrite
pub mod Filter
pub mod Load
pub mod Client
mod Tests

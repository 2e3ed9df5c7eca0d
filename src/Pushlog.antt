-- ===== src/Pushlog.antt =====
-- hgext/pushlog: the pushlog of a repository. SQLite is modelled by its tables (Db), with what the
-- code relies on: the unique indexes and the growing ids. Record writes pushes; Lookup, Select and
-- Query read them; Wire sends them to a mirror, Feed shows them on the web, and Repair checks and
-- reconciles them.
pub mod Db
pub mod Record
pub mod Lookup
pub mod Select
pub mod Query
pub mod Wire
pub mod Feed
pub mod Repair
mod Tests

-- ===== src/Lib.antt =====
-- A model of version-control-tools, the code behind Mozilla's Mercurial server, and proofs about
-- it. The development follows vcsreplicator, which replicates repositories from the master to the
-- mirrors over Kafka: hooks on the master record messages, a consumer on each mirror applies
-- them, and an aggregator copies the messages that all mirrors have consumed to another topic,
-- which the notifiers read. Beside it stand the pushlog, which records each push and is copied to
-- the mirrors with a pull, the hooks that refuse a push to the master, the command that unifies
-- several repositories with their pushlogs, and the checkout that the build machines run.
--
-- Parts and files (paths from pylib/vcsreplicator/vcsreplicator/ unless given whole):
--   Base        lists, texts (lists of character codes), dicts as association lists, and `Result`,
--               a Python call that may raise
--   Message     producer.py: `record_…`, `Producer.send_message` (Produce); util.py:
--               `payload_log_display` (Display)
--   Config      config.py: the rewrites (Rewrite), `Config.filter` (Filter), `Config.__init__` (Load),
--               the options and `get_client_from_section` (Client)
--   Daemon      daemon.py: `run_in_loop` and its signal handler
--   Aggregator  aggregator.py: `get_aggregation_counts` (Counts), `_copy_messages` (Copy),
--               `copy_messages`, `synchronize_fully_consumed_messages`, `_run_aggregation` (Run)
--   Consumer    consumer.py: the files of a mirror (Files), actions on them and Mercurial (Io), the
--               `process_…` functions (Process, Sync, Delete, Heads), `handle_message_main`,
--               `handle_message_heads` and the decorators (Handle), `consume` (Loop)
--   Master      hgext.py: the replication log (Log), the hooks and their sends (Hooks), and their
--               order in a transaction (Transaction)
--   Pushlog     hgext/pushlog/__init__.py: the tables (Db), `pretxnchangegrouphook` and `recordpush`
--               (Record), the lookups (Lookup), `pushes` (Select for its inner query, Query for the
--               join), the wire protocol with its client (Wire), `verify` and `handledestroyed`
--               (Repair); hgext/pushlog/feed.py: the query and the navigation (Feed), the list of
--               changes (Changelist), `pushes_worker` (Worker), `do_parse_date` (Dates),
--               `pushlog_setup` and the view `pushes` (Setup), `pushlog_feed` (Atom)
--   Notify      pushnotifications.py: `consume_one`, with what the repositories answer as `Repos`,
--               `_get_pushlog_info` (Info) and `_get_obsolete_pushkey_message` (Obsolete); the way of
--               a message from the master over the aggregator to it (Copied)
--   Hooks       hghooks/mozhghooks: extension.py (Extension), check/single_root.py (Roots),
--               check/prevent_subrepos.py (Subrepos), the other checks of check/ but
--               check_bug_references.py (Checks), single_head_per_branch.py,
--               prevent_case_only_renames.py and treeclosure.py (Guards),
--               changelog_correctness.py (Manifests), prevent_nspr_nss_changes.py and
--               prevent_string_changes.py (Protected)
--   Bootstrap   bootstrap.py: `hgssh` and the reading of the partitions, the schedule of the clones
--               (Schedule), and what `hgweb` does as they complete (Finish)
--   Unify       hgext/unifyrepo/__init__.py: `unifyconfig` (Settings), the pushes of the sources
--               (Collect), what is unified (Choose), `emitfastforwardnodes` (Pulls), `unifypushes`
--               and `newpushes` (Pushes), and the command
--   Checkout    hgext/robustcheckout/__init__.py: the files and the calls of `_docheckout` (Steps),
--               its checks (Sanity), its handlers (Failures), a call of it (Attempt), and the run
--               with its report
--
-- Kafka, Mercurial, the parser of configuration files, regular expressions and the encoders are
-- arguments: a list of the answers to the polls, the record `Hg` of what the commands answer and
-- do to the files, functions for the others. Loops that poll recurse on the list of answers; where
-- it ends, the loop is said to be waiting, so no fuel is chosen. The calls of `_docheckout` take
-- the answers of one call each from a list, and the run is waiting where it ends. SQLite is its two
-- tables with their unique indexes. A decimal of n has at most n + 1 digits, and the loop over two
-- manifests has as many rounds as they have lines: these are the only counts of rounds. Log lines,
-- the times of sleeping, the construction of clients and the command lines are not modelled.
pub mod Aggregator
pub mod Base
pub mod Bootstrap
pub mod Checkout
pub mod Config
pub mod Consumer
pub mod Daemon
pub mod Hooks
pub mod Master
pub mod Message
pub mod Notify
pub mod Pushlog
pub mod Unify

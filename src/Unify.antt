-- ===== src/Unify.antt =====
-- hgext/unifyrepo/__init__.py: `unifyrepo`, which makes one repository of several.
pub mod Settings
pub mod Collect
pub mod Choose
pub mod Pulls
pub mod Pushes
pub mod Earliest
pub mod Covers
pub mod Grouped
pub mod Ready
pub mod Recorded
pub mod Tests
use version_control_tools_fx.Base.{
  ℕ, zero, suc, Bool, true, false, not, List, [], ◌∷◌, ◌++◌, map, Option, none, some, Text, find,
  ltb, if◌then◌else◌,
}
use version_control_tools_fx.Base.Result.{Result, ok, err, abort, key_error, require, ◌>>=◌}
use version_control_tools_fx.Hooks.Roots.{member, is_empty}
use version_control_tools_fx.Pushlog.Db.{Db}
use version_control_tools_fx.Pushlog.Record.{Push, recordpushes}
use version_control_tools_fx.Pushlog.Lookup.{Repo, filter_rows}
use version_control_tools_fx.Pushlog.Select.{all_pushes}
use version_control_tools_fx.Pushlog.Query.{pushes}
use version_control_tools_fx.Unify.Settings.{Section, unifyconfig, sources}
use version_control_tools_fx.Unify.Collect.{SourceRepo, open_all, check_rev0s, collected, resolve}
use version_control_tools_fx.Unify.Choose.{choose, keep_nodes}
use version_control_tools_fx.Unify.Pulls.{Changelog, emitfastforwardnodes}
use version_control_tools_fx.Unify.Pushes.{UnifiedPush, unifypushes, newpushes}

-- What the command finds: the source repositories, the changelog of the staging repository once
-- all sources are pulled into it, what a pull of one head from it makes of the nodes of the
-- destination, what its pushlog is asked with, and whether vcsreplicator is loaded.
pub record World : Type 0 where
  pub repository : Text → Result SourceRepo
  pub stage : Changelog
  pub pull : Text → List Text → List Text
  pub repo : Repo
  pub has_vcsreplicator : Bool

-- The destination: its nodes by revision, its pushlog and its bookmarks, with what was changed of
-- these, and whether a message to replicate it was sent.
pub record Destination : Type 0 where
  pub log : List Text
  pub db : Db
  pub books : List Text
  pub changes : List (Text × Option Text)
  pub replicated : Bool

-- What the first half of the command works out.
pub record Plan : Type 0 where
  pub pullnodes : List Text
  pub unified : List UnifiedPush
  pub books : List (Text × Text)

unfoldable pub plan : World → List (Text × Section) → List Text → Result Plan
unfolding unifyconfig sources open_all check_rev0s collected choose keep_nodes filter_rows member
    emitfastforwardnodes unifypushes
plan w c log = do
  conf ← unifyconfig c
  ss ← sources conf
  srcs ← open_all w.repository ss
  rev0s ← check_rev0s [] srcs
  m ← collected srcs
  (sourcenodes, books) ← choose srcs []
  let kept = keep_nodes sourcenodes m
  pullnodes ← emitfastforwardnodes w.stage (filter_rows (λ e. not (member e.0 log)) kept)
  ok (record { pullnodes = pullnodes; unified = unifypushes kept; books = books })

-- `exchange.pull` for each node
unfoldable pub pull_all : World → List Text → List Text → List Text
pull_all w [] log = log
pull_all w (n ∷ ns) log = pull_all w ns (w.pull n log)

-- `destnodepushtime`, the last entry of a node first
unfoldable pub push_times : List Push → List (Text × ℕ) → List (Text × ℕ)
push_times [] times = times
push_times (p ∷ ps) times = push_times ps (map (λ n. (n, p.when)) p.nodes ++ times)

-- The revisions, from `rev` on, with a push that is older than that of the revision before.
unfoldable pub older_revs : List (Text × ℕ) → ℕ → ℕ → List Text → Result (List ℕ)
unfolding find
older_revs times rev last [] = ok []
older_revs times rev last (n ∷ ns) = do
  time ← require key_error (find n times)
  rest ← older_revs times (suc rev) time ns
  ok (if ltb time last then rev ∷ rest else rest)

-- What is written of the bookmarks: the new ones, and none for each that is no longer there.
unfoldable pub bookmark_changes : List (Text × Text) → List Text → List (Text × Option Text)
unfolding filter_rows member
bookmark_changes books old =
    map (λ b. (b.0, some b.1)) books
    ++ map (λ b. (b, none)) (filter_rows (λ b. not (member b (map (λ e. e.0) books))) old)

abbrev pub replicate : Bool → Bool → Destination → Destination × Result (Unit {0})
replicate true found d = (d, ok tt)
replicate false true d = (record d { replicated = true }, ok tt)
replicate false false d = (d, err abort)

-- Behind the pushlog: the check of the times, the bookmarks and the message.
unfoldable pub finish : World → Bool → Plan → Destination → Destination × Result (Unit {0})
unfolding pushes push_times older_revs bookmark_changes
finish w skip p d =
    elim (pushes w.repo all_pushes d.db >>= λ ps. older_revs (push_times ps []) 0 0 d.log) [
      | err e ↦ (d, err e)
      | ok older ↦
          replicate skip w.has_vcsreplicator
            (record d { changes = bookmark_changes p.books d.books })
    ]

-- The pushes are recorded in one transaction.
unfoldable pub record_pushes : World → Bool → Plan → Destination → Destination × Result (Unit {0})
unfolding newpushes recordpushes finish
record_pushes w skip p d =
    elim (newpushes w.repo p.unified d.db >>= λ ps. recordpushes (resolve d.log) ps d.db) [
      | err e ↦ (d, err e)
      | ok db ↦ finish w skip p (record d { db = db })
    ]

-- `unifyrepo`: the destination behind it, and whether it raised
unfoldable pub unifyrepo :
    World → Bool → List (Text × Section) → Destination → Destination × Result (Unit {0})
unfolding plan pull_all record_pushes
unifyrepo w skip c d = elim (plan w c d.log) [
  | err e ↦ (d, err e)
  | ok p ↦
      if is_empty p.pullnodes
      then (d, ok tt)
      else record_pushes w skip p (record d { log = pull_all w p.pullnodes d.log })
]

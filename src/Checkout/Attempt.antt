-- ===== src/Checkout/Attempt.antt =====
-- hgext/robustcheckout/__init__.py: one call of `_docheckout`. What Mercurial and the network answer
-- to it is the record `Answers`.
use version_control_tools_fx.Base.{
  ℕ, Bool, false, not, ◌&&◌, List, [], ◌∷◌, ◌++◌, Option, none, some, Text, codes, text_eq, find,
  starts_with, if◌then◌else◌,
}
use version_control_tools_fx.Hooks.Roots.{is_empty}
use version_control_tools_fx.Checkout.Steps.{
  Exception, abort, repo_lookup_error, Answer, gives, raises, Disk, M, next, ◌>>=◌, ◌>>◌, pure,
  raise, when, answered, disk_of, add_behavior, timeit, dest_exists, sharedpath_of, store_exists,
}
use version_control_tools_fx.Checkout.Sanity.{is_given, is_none, check_dest, check_store}
use version_control_tools_fx.Checkout.Failures.{
  try_, deletesharedstore, is_pull_error, retry_or_raise, on_failure,
}

-- The arguments of `robustcheckout`; one that is not given is empty.
pub record Options : Type 0 where
  pub url : Text
  pub upstream : Text
  pub revision : Text
  pub branch : Text
  pub purge : Bool
  pub sharebase : Text
  pub networkattemptlimit : ℕ
  pub sparse_profile : Text
  pub noupdate : Bool

-- The includes, excludes and profiles of a sparse checkout.
pub record SparseConfig : Type 0 where
  pub includes : List Text
  pub excludes : List Text
  pub profiles : List Text

pub record Answers : Type 0 where
  -- the first node of the clone source
  pub root : Answer Text
  -- `hg.clone`, whether it answers a result, and the files behind it
  pub clone : Disk → Answer Bool × Disk
  -- `repo.recover()`
  pub recover : Answer Bool
  -- `hg.repository` for the destination
  pub opens : Answer (Unit {0})
  -- the revision in the repository, in hex; the null revision, which is false, counts as missing
  pub local : Answer Text
  -- what the remote makes of the revision or the branch
  pub remote : Answer Text
  pub has : Text → Bool
  -- whether the pull has heads
  pub pull : Disk → Answer Bool × Disk
  -- whether `purge` fails
  pub purges : Answer Bool
  -- whether the sparse profile is in the revision, and the old configuration
  pub has_profile : Answer Bool
  pub sparse_config : SparseConfig
  pub refreshes : Disk → Answer (Unit {0}) × Disk
  -- whether `update` fails
  pub updates : Answer Bool

-- A call that changes files.
unfoldable pub effect : {A : Type 0} → (Disk → Answer A × Disk) → M A
unfolding answered
effect f s = answered (f s.disk).0 (record s { disk = (f s.disk).1 })

abbrev pub on_root_failure : ℕ → Exception → M Text
on_root_failure limit repo_lookup_error =
    raise (abort (codes "unable to resolve root revision from clone source"))
on_root_failure limit e = if is_pull_error e then retry_or_raise limit e else raise e

abbrev pub nullid : Text
nullid = codes "0000000000000000000000000000000000000000"

-- The root of the clone source.
unfoldable pub find_root : Options → Answers → M Text
unfolding retry_or_raise
find_root o a = do
  root ← try_ (answered a.root) (on_root_failure o.networkattemptlimit)
  when (text_eq root nullid) (raise (abort (codes "source repo appears to be empty")))
  pure root

-- `os.path.join(sharebase, hex(rootnode))`
abbrev pub store_path : Options → Text → Text
store_path o root = o.sharebase ++ b'/' ∷ root

abbrev pub delete_corrupt : M (Unit {0})
delete_corrupt =
    timeit (codes "remove_shared_store_revlogerror") (codes "remote-store") deletesharedstore

-- `b"create-store"`, a bytes object that equals no str, by its repr.
abbrev pub create_store : Text
create_store = codes "b'create-store'"

-- The clone, where there is no destination.
unfoldable pub clone_dest : Options → Answers → Text → M (Unit {0})
unfolding on_failure timeit deletesharedstore find
clone_dest o a path = do
  d ← disk_of
  when (not (store_exists path d)) (add_behavior create_store)
  res ←
      try_ (timeit (codes "clone") (codes "clone") (effect a.clone))
        (on_failure o.networkattemptlimit a.recover delete_corrupt)
  when (not res) (raise (abort (codes "clone failed")))
  d' ← disk_of
  when (is_none (sharedpath_of d')) (raise (abort (codes "clone did not create a shared repo")))

-- `created`
unfoldable pub ensure_dest : Options → Answers → Text → M Bool
unfolding clone_dest
ensure_dest o a path = do
  d ← disk_of
  when (not (dest_exists d)) (clone_dest o a path)
  pure (not (dest_exists d))

abbrev pub starting_with : Text → Text → M (Option Text)
starting_with revision hex =
    if starts_with hex revision
    then pure (some hex)
    else raise (abort (codes "--revision argument is ambiguous"))

abbrev pub local_answer : Text → Answer Text → M (Option Text)
local_answer revision (raises repo_lookup_error) = pure none
local_answer revision (raises e) = raise e
local_answer revision (gives hex) = starting_with revision hex

-- The wanted revision, if the repository has it.
unfoldable pub find_local : Options → Answers → M (Option Text)
unfolding starts_with
find_local o a = if is_given o.revision then local_answer o.revision a.local else pure none

abbrev pub pull_revision : Answers → Text → M Text
pull_revision a rev = do
  pulled ← timeit (codes "pull") (codes "pull") (effect a.pull)
  when (not pulled) (raise (abort (codes "unable to pull requested revision")))
  pure rev

abbrev pub pull_unless : Answers → Text → M Text
pull_unless a rev = if a.has rev then pure rev else pull_revision a rev

-- The revision that the remote names, pulled where it is missing.
unfoldable pub pull_wanted : Options → Answers → M Text
unfolding on_failure timeit deletesharedstore
pull_wanted o a =
    try_ (answered a.remote >>= pull_unless a)
      (on_failure o.networkattemptlimit a.recover deletesharedstore)

abbrev pub or_pull : Options → Answers → Option Text → M Text
or_pull o a none = pull_wanted o a
or_pull o a (some rev) = pure rev

-- `checkoutrevision`
unfoldable pub find_revision : Options → Answers → M Text
unfolding find_local pull_wanted
find_revision o a = do found ← find_local o a; or_pull o a found

unfoldable pub purge_dest : Answers → M (Unit {0})
unfolding timeit
purge_dest a =
    timeit (codes "purge") (codes "purge")
      (do failed ← answered a.purges; when failed (raise (abort (codes "error purging"))))

-- `repo["."].node() == nullid`
unfoldable pub note_wdir : M (Unit {0})
note_wdir = do
  d ← disk_of
  elim d.dest [
    | none ↦ add_behavior (codes "empty-wdir")
    | some x ↦ elim x.checked_out [
      | none ↦ add_behavior (codes "empty-wdir")
      | some rev ↦ add_behavior (codes "populated-wdir")
    ]
  ]

abbrev pub is_only : Text → List Text → Bool
is_only p [] = false
is_only p (q ∷ []) = text_eq p q
is_only p (q ∷ r ∷ rs) = false

-- The sparse configuration is the profile alone already.
abbrev pub is_set : Text → SparseConfig → Bool
is_set p c = is_only p c.profiles && is_empty c.includes && is_empty c.excludes

unfoldable pub set_profile : Options → Answers → M (Unit {0})
unfolding timeit
set_profile o a = do
  there ← answered a.has_profile
  when (not there) (raise (abort (codes "sparse profile does not exist")))
  when (not (is_set o.sparse_profile a.sparse_config))
      (timeit (codes "sparse_update_config") (codes "sparse-update-config") (effect a.refreshes))

abbrev pub checked_out_at : Text → Disk → Disk
checked_out_at rev d = elim d.dest [
  | none ↦ d
  | some x ↦ record d { dest = some (record x { checked_out = some rev }) }
]

unfoldable pub set_checked_out : Text → M (Unit {0})
set_checked_out rev s = next tt (record s { disk = checked_out_at rev s.disk })

-- `commands.update`, which abandons local changes
abbrev pub update_to : Answers → Text → M (Unit {0})
update_to a rev = do
  failed ← answered a.updates
  when failed (raise (abort (codes "error updating")))
  set_checked_out rev

abbrev pub timed_update : Text → Answers → Text → M (Unit {0})
timed_update profile a rev =
    if is_given profile
    then timeit (codes "update_sparse") (codes "update-sparse") (update_to a rev)
    else timeit (codes "update") (codes "update") (update_to a rev)

-- The working directory.
unfoldable pub update_wdir : Options → Answers → Bool → Text → M (Unit {0})
unfolding purge_dest note_wdir set_profile timeit
update_wdir o a created rev = do
  when (o.purge && not created) (purge_dest a)
  note_wdir
  when (is_given o.sparse_profile) (set_profile o a)
  timed_update o.sparse_profile a rev

-- `_docheckout`, up to where it ends or calls itself; with the revision that it found
unfoldable pub docheckout : Options → Answers → M Text
unfolding check_dest find_root check_store ensure_dest find_revision update_wdir
docheckout o a = do
  check_dest o.sparse_profile
  root ← find_root o a
  check_store (store_path o root)
  created ← ensure_dest o a (store_path o root)
  answered a.opens
  rev ← find_revision o a
  when (not o.noupdate) (update_wdir o a created rev)
  pure rev

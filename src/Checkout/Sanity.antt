-- ===== src/Checkout/Sanity.antt =====
-- hgext/robustcheckout/__init__.py: what `_docheckout` checks of the destination and of the shared
-- store before it uses them, and what it deletes.
use version_control_tools_fx.Base.{
  dirname, ℕ, Bool, true, false, not, ◌&&◌, ◌||◌, List, [], ◌∷◌, ◌++◌, map, Option, none, some,
  Text, codes, find, starts_with, ends_with, strip, length, take, drop, all, leb, ◌==◌,
  if◌then◌else◌,
}
use mathlib.Core.List.{reverse}
use version_control_tools_fx.Hooks.Roots.{member, difference, is_empty}
use version_control_tools_fx.Checkout.Steps.{
  abort, other, Store, Disk, M, ◌>>=◌, ◌>>◌, pure, raise, when, disk_of, remove_dest, remove_store,
  timeit, dest_exists, has_hg, has_sparse, has_wlock, sharedpath_of, store_exists,
}

-- A store's directory; the path of a share ends in its `.hg`.
unfoldable pub store_dir : Text → Text
unfolding ends_with dirname
store_dir p = if ends_with p (codes ".hg") then dirname p else p

abbrev pub is_hex : ℕ → Bool
is_hex c = (leb 48 c && leb c 57) || (leb 97 c && leb c 102)

-- `[a-f0-9]{40}/\.hg$` is found in the path, where a backslash is a slash.
unfoldable pub is_pooled : Text → Bool
unfolding starts_with
is_pooled p =
    let r = reverse (map (λ (c : ℕ). if c == b'\\' then b'/' else c) p) in
    let name = take 40 (drop 4 r) in
    starts_with r (codes "gh./") && length name == 40 && all is_hex name

abbrev pub is_given : Text → Bool
is_given t = not (is_empty_text t)
  where
    is_empty_text : Text → Bool
    is_empty_text [] = true
    is_empty_text (c ∷ cs) = false

-- The destination is not a checkout, or one of the other kind.
unfoldable pub refuse_dest : Text → M (Unit {0})
refuse_dest profile = do
  d ← disk_of
  when (dest_exists d && not (has_hg d))
      (raise (abort (codes "destination exists but no .hg directory")))
  when (dest_exists d && is_given profile && not (has_sparse d))
      (raise (abort (codes "cannot enable sparse profile on existing non-sparse checkout")))
  when (not (is_given profile) && has_sparse d)
      (raise (abort (codes "cannot use non-sparse checkout on existing sparse checkout")))

abbrev pub is_none : Option Text → Bool
is_none none = true
is_none (some t) = false

unfoldable pub drop_unshared : M (Unit {0})
unfolding timeit
drop_unshared = do
  d ← disk_of
  when (has_hg d && is_none (sharedpath_of d))
      (timeit (codes "remove_unshared_dest") (codes "remove-wdir") remove_dest)

abbrev pub check_path : Text → Disk → M (Unit {0})
check_path p d =
    if not (store_exists (store_dir p) d)
    then timeit (codes "removed_missing_shared_store") (codes "remove-wdir") remove_dest
    else when (not (is_pooled p))
        (timeit (codes "remove_unpooled_store") (codes "remove-wdir") remove_dest)

-- The shared path is there and pooled.
unfoldable pub check_shared : M (Unit {0})
unfolding timeit strip store_dir is_pooled find
check_shared = do
  d ← disk_of
  elim (sharedpath_of d) [ none ↦ pure tt | some raw ↦ check_path (strip raw) d ]

unfoldable pub drop_locked : M (Unit {0})
unfolding timeit
drop_locked = do
  d ← disk_of
  when (has_wlock d) (timeit (codes "remove_locked_wdir") (codes "remove-wdir") remove_dest)

-- All checks of the destination.
unfoldable pub check_dest : Text → M (Unit {0})
unfolding refuse_dest drop_unshared check_shared drop_locked
check_dest profile = do refuse_dest profile; drop_unshared; check_shared; drop_locked

-- The store is deleted, with the destination if there is one.
unfoldable pub drop_both : Text → Text → Text → M (Unit {0})
unfolding timeit remove_store
drop_both dest_op store_op path = do
  d ← disk_of
  when (dest_exists d) (timeit dest_op (codes "remove-wdir") remove_dest)
  timeit store_op (codes "remove-store") (remove_store path)

abbrev pub has_lock : Option Store → Bool
has_lock none = false
has_lock (some s) = s.lock

abbrev pub lacks_requires : Option Store → Bool
lacks_requires none = false
lacks_requires (some s) = elim s.requires [ none ↦ true | some rs ↦ false ]

unfoldable pub drop_locked_store : Text → M (Unit {0})
unfolding drop_both find
drop_locked_store path = do
  d ← disk_of
  when (has_lock (find path d.stores))
      (drop_both (codes "remove_dest_active_lock") (codes "remove_shared_store_active_lock") path)

unfoldable pub drop_odd_store : Text → M (Unit {0})
unfolding drop_both find
drop_odd_store path = do
  d ← disk_of
  when (lacks_requires (find path d.stores))
      (drop_both (codes "remove_dest_no_requires") (codes "remove_shared_store_no_requires") path)

abbrev pub required : List Text
required = codes "dotencode" ∷ codes "fncache" ∷ []

-- `requires`, with those of the store where it is share-safe
unfoldable pub all_requires : List Text → Option (List Text) → M (List Text)
unfolding member
all_requires rs more =
    if member (codes "share-safe") rs
    then elim more [ none ↦ raise other | some ms ↦ pure (rs ++ ms) ]
    else pure rs

abbrev pub drop_unless_complete : Text → List Text → M (Unit {0})
drop_unless_complete path requires = when (not (is_empty (difference required requires))) (
    drop_both (codes "remove_dest_missing_requires") (codes "remove_shared_store_missing_requires")
      path)

abbrev pub check_required : Text → Store → M (Unit {0})
check_required path s = elim s.requires [
  | none ↦ pure tt
  | some rs ↦ all_requires rs s.store_requires >>= drop_unless_complete path
]

unfoldable pub drop_incomplete_store : Text → M (Unit {0})
unfolding all_requires drop_both difference find
drop_incomplete_store path = do
  d ← disk_of
  elim (find path d.stores) [ none ↦ pure tt | some s ↦ check_required path s ]

-- All checks of the store.
unfoldable pub check_store : Text → M (Unit {0})
unfolding drop_locked_store drop_odd_store drop_incomplete_store
check_store path = do drop_locked_store path; drop_odd_store path; drop_incomplete_store path

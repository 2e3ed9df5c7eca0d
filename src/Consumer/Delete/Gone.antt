-- ===== src/Consumer/Delete/Gone.antt =====
-- What `process_hg_delete` leaves.
use version_control_tools_fx.Base.{
  dirname, ◌≡◌, refl, true, false, ◌||◌, ◌∷◌, none, some, Text, [], append-nil, text_eq_iff, drop,
  length, arith, if◌then◌else◌,
}
use version_control_tools_fx.Base.Result.{ok}
use version_control_tools_fx.Consumer.Files.{
  directory, Fs, exists, at_or_below, remove_tree, rename_tree,
}
use version_control_tools_fx.Consumer.Process.{Settings, local_path}
use version_control_tools_fx.Consumer.Delete.{
  ensure_dirs, rename, rmtree, move_and_remove, destination, process_hg_delete,
}

-- A backup keeps every repository.
pub backup_keeps :
    (s : Settings) (wire_path : Text) (fs : Fs)
    → s.backup ≡ true
    → process_hg_delete s wire_path fs ≡ (ok tt, fs)
unfolding process_hg_delete
backup_keeps s wire_path fs b = simp b

-- A directory that can be moved: nothing stands at the destination, its directory is there, and it
-- is not below the directory itself.
pub record Movable (path dest : Text) (fs : Fs) : Type 0 where
  pub is_directory : fs path ≡ some directory
  pub dest_free : fs dest ≡ none
  pub dest_directory : fs (dirname dest) ≡ some directory
  pub apart : at_or_below path dest ≡ false

ensure_dirs-there : (d : Text) (fs : Fs) → fs d ≡ some directory → ensure_dirs d fs ≡ (ok tt, fs)
unfolding ensure_dirs
ensure_dirs-there d fs h = ground arith

rename-done :
    (path dest : Text) (fs : Fs)
    → Movable path dest fs
    → rename path dest fs ≡ (ok tt, rename_tree path dest fs)
unfolding rename
rename-done path dest fs m = ground (arith, text_eq_iff path dest)

rmtree-done : (p : Text) (fs : Fs) → fs p ≡ some directory → rmtree p fs ≡ (ok tt, remove_tree p fs)
unfolding rmtree
rmtree-done p fs h = ground arith

drop_whole : (t : Text) → drop (length t) t ≡ []
drop_whole [] = refl
drop_whole (c ∷ t) = drop_whole t

renamed-directory :
    (path dest : Text) (fs : Fs)
    → fs path ≡ some directory
    → rename_tree path dest fs dest ≡ some directory
unfolding rename_tree at_or_below
renamed-directory path dest fs h =
    rw ((text_eq_iff dest dest).1 refl, drop_whole dest, append-nil path) h

move_and_remove-done :
    (path dest : Text) (fs : Fs)
    → Movable path dest fs
    → move_and_remove path dest fs ≡ (ok tt, remove_tree dest (rename_tree path dest fs))
unfolding move_and_remove
move_and_remove-done path dest fs m =
    rw
      (
        ensure_dirs-there (dirname dest) fs m.dest_directory,
        rename-done path dest fs m,
        rmtree-done dest (rename_tree path dest fs) (renamed-directory path dest fs m.is_directory),
      )
      refl

-- What the deletion of a repository comes to: the tree is moved, and removed where it went.
pub delete_moves :
    (s : Settings) (wire_path : Text) (fs : Fs)
    → s.backup ≡ false
    → Movable (local_path s wire_path) (destination s wire_path) fs
    → process_hg_delete s wire_path fs ≡ (
      ok tt,
      remove_tree
          (destination s wire_path)
          (rename_tree (local_path s wire_path) (destination s wire_path) fs),
    )
unfolding process_hg_delete
delete_moves s wire_path fs b m =
    let there : exists fs (local_path s wire_path) ≡ true = rw (m.is_directory, exists) refl in
    simp (b, there, move_and_remove-done (local_path s wire_path) (destination s wire_path) fs m)

-- On a node that is no backup, where the repository can be moved, nothing is left after a deletion
-- at the repository or below it, nor where it was moved, and every other path is as it was.
pub delete_gone :
    (s : Settings) (wire_path : Text) (fs : Fs) (q : Text)
    → s.backup ≡ false
    → Movable (local_path s wire_path) (destination s wire_path) fs
    → (process_hg_delete s wire_path fs).1 q ≡ (
        if at_or_below (local_path s wire_path) q || at_or_below (destination s wire_path) q
        then none
        else fs q)
unfolding remove_tree rename_tree
delete_gone s wire_path fs q b m = rw (delete_moves s wire_path fs b m) (ground arith)

-- ===== src/Consumer/Delete.antt =====
-- `process_hg_delete` of consumer.py.
pub mod Gone
use version_control_tools_fx.Base.{
  dirname, Bool, true, false, not, List, Option, none, some, Text, codes, text_eq, if◌then◌else◌,
}
use version_control_tools_fx.Base.Result.{ok, err, os_error}
use version_control_tools_fx.Config.Rewrite.{replace}
use version_control_tools_fx.Consumer.Files.{
  Node, file, directory, Fs, exists, at_or_below, remove_tree, rename_tree, blocked, make_dirs,
}
use version_control_tools_fx.Consumer.Io.{Io, ◌>>=◌, ◌>>◌, pure, raise, gets, modify, ignore_os}
use version_control_tools_fx.Consumer.Process.{Settings, local_path}

-- `os.makedirs(d)` with the handler that ignores a directory that is there
unfoldable pub ensure_dirs : Text → Io (Unit {0})
ensure_dirs d fs =
    if exists fs d
    then (ok tt, fs)
    else if blocked fs d
    then (err os_error, fs)
    else (ok tt, make_dirs d fs)

-- `os.rename(src, dst)`. A directory cannot be moved below itself. A rename to the same path does
-- nothing. Every other path that is there is taken for a directory that is not empty, or a file.
unfoldable pub rename : Text → Text → Io (Unit {0})
rename src dst fs =
    if not (exists fs src)
    then (err os_error, fs)
    else if text_eq src dst
    then (ok tt, fs)
    else if at_or_below src dst
    then (err os_error, fs)
    else if exists fs dst
    then (err os_error, fs)
    else (ok tt, rename_tree src dst fs)

-- `shutil.rmtree(p)`
unfoldable pub rmtree : Text → Io (Unit {0})
rmtree p fs = elim (fs p) [ some directory ↦ (ok tt, remove_tree p fs) | _ ↦ (err os_error, fs) ]

abbrev pub todelete : Settings → Text
todelete s = elim s.todelete_path [ none ↦ codes "/repo/hg/todelete" | some p ↦ p ]

-- Where the repository is moved before it is removed.
abbrev pub destination : Settings → Text → Text
destination s wire_path = replace wire_path (codes "{moz}") (todelete s)

-- The body of the `try`.
unfoldable pub move_and_remove : Text → Text → Io (Unit {0})
move_and_remove path dest = do ensure_dirs (dirname dest); rename path dest; rmtree dest

-- `process_hg_delete`
unfoldable pub process_hg_delete : Settings → Text → Io (Unit {0})
process_hg_delete s wire_path = if s.backup then pure tt else do
  there ← gets (λ fs. exists fs (local_path s wire_path))
  if there
      then ignore_os (move_and_remove (local_path s wire_path) (destination s wire_path))
      else pure tt

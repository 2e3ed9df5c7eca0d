-- ===== src/Consumer/Process.antt =====
-- The `process_hg_…` functions of consumer.py, with `init_repo`, `stream_clone_repo` and
-- `update_hgrc`. Logging is left out.
use version_control_tools_fx.Base.{
  dirname, ℕ, Bool, not, ◌&&◌, ◌||◌, List, [], ◌∷◌, Option, none, some, Text, codes, ◌==◌,
  if◌then◌else◌,
}
use version_control_tools_fx.Base.Result.{Result, ok, err, os_error, command_error}
use version_control_tools_fx.Config.Rewrite.{parse_wire_repo_path, get_pull_url_from_repo_path}
use version_control_tools_fx.Config.Load.{Config}
use version_control_tools_fx.Consumer.Files.{file, directory, Fs, exists, put, join_path}
use version_control_tools_fx.Consumer.Io.{
  Io, ◌>>=◌, ◌>>◌, pure, raise, gets, modify, init, clone, pull, debugpushkey, Hg, check_code,
  command,
}

-- The options of the section `[consumer]` beside the rest: `is_backup`, and `todelete_path`.
pub record Settings : Type 0 where
  pub config : Config
  pub open config use *
  pub backup : Bool
  pub todelete_path : Option Text

abbrev pub local_path : Settings → Text → Text
local_path s path = parse_wire_repo_path s.path_rewrites path

-- `url or "default"`
abbrev pub or_default : Option Text → Text
or_default none = codes "default"
or_default (some []) = codes "default"
or_default (some (c ∷ cs)) = c ∷ cs

module _ (hg : Hg) where
  -- `init_repo`
  unfoldable pub init_repo : Text → Io (Unit {0})
  init_repo path = do r ← command (hg.popen (init path)); check_code r

  -- `stream_clone_repo`
  unfoldable pub stream_clone_repo : Option Text → Text → Io (Unit {0})
  stream_clone_repo canonical_path path = do
    r ← command (hg.popen (clone canonical_path path))
    check_code r

  -- `process_hg_repo_init`
  unfoldable pub process_hg_repo_init : Settings → Text → Io (Unit {0})
  unfolding init_repo join_path
  process_hg_repo_init s path = do
    let p = local_path s path
    there ← gets (λ fs. exists fs (join_path p (codes ".hg")))
    if there then pure tt else init_repo p

-- `open(p, "wb")` and a write: the directory must be there, and `p` must be no directory. The file
-- is written at the time `now`.
unfoldable pub write_file : ℕ → Text → List ℕ → Io (Unit {0})
unfolding put dirname
write_file now p content fs =
    let done : Result (Unit {0}) × Fs = (ok tt, put p (some (file content now)) fs) in
    elim (fs (dirname p)) [
      | some directory ↦ elim (fs p) [ some directory ↦ (err os_error, fs) | _ ↦ done ]
      | _ ↦ (err os_error, fs)
    ]

abbrev pub hgrc_path : Text → Text
hgrc_path repo_path = join_path (join_path repo_path (codes ".hg")) (codes "hgrc")

-- `update_hgrc`; what is written as UTF-8 stands in the file as the text.
unfoldable pub update_hgrc : ℕ → Text → Option Text → Io (Unit {0})
unfolding put join_path write_file
update_hgrc now repo_path none = do
  there ← gets (λ fs. exists fs (hgrc_path repo_path))
  if there then modify (put (hgrc_path repo_path) none) else pure tt
update_hgrc now repo_path (some content) = write_file now (hgrc_path repo_path) content

-- `process_hg_hgrc_update`
unfoldable pub process_hg_hgrc_update : ℕ → Settings → Text → Option Text → Io (Unit {0})
unfolding update_hgrc
process_hg_hgrc_update now s path content = update_hgrc now (local_path s path) content

module _ (hg : Hg) where
  -- `process_hg_changegroup`; the numbers of changesets are only logged
  unfoldable pub process_hg_changegroup : Settings → Text → List Text → Io (Unit {0})
  process_hg_changegroup s path heads = do
    let p = local_path s path
    let url = or_default (get_pull_url_from_repo_path s.pull_url_rewrites path)
    (λ fs. (hg.opens p fs, fs))
    (λ fs. (hg.tip p fs, fs))
    r ← command (hg.run p (pull url heads))
    check_code r
    (λ fs. (hg.tip p fs, fs))
    pure tt

  -- `process_hg_pushkey`
  unfoldable pub process_hg_pushkey :
      Settings → Text → Text → Text → Text → Text → ℕ → Io (Unit {0})
  process_hg_pushkey s path namespace key old new ret = do
    let p = local_path s path
    (λ fs. (hg.opens p fs, fs))
    r ← command (hg.run p (debugpushkey p namespace key old new))
    if not (r.code == 0) && not (r.code == ret) then raise (command_error r.stderr) else pure tt

  -- The part of `process_hg_sync` behind the creation.
  unfoldable pub sync_existing : ℕ → Settings → Text → Option Text → List Text → Io (Unit {0})
  unfolding update_hgrc
  sync_existing now s path hgrc heads = do
    let p = local_path s path
    let url = or_default (get_pull_url_from_repo_path s.pull_url_rewrites path)
    update_hgrc now p hgrc
    (λ fs. (hg.opens p fs, fs))
    (λ fs. (hg.tip p fs, fs))
    r ← command (hg.run p (pull url heads))
    if r.code == 0 || r.code == 1 then pure tt else raise (command_error r.stderr)
    (λ fs. (hg.tip p fs, fs))
    pure tt

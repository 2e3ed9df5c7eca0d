-- ===== src/Consumer/Sync.antt =====
-- `process_hg_sync` of consumer.py.
use version_control_tools_fx.Base.{Bool, List, Option, Text, ℕ, if◌then◌else◌}
use version_control_tools_fx.Config.Rewrite.{get_pull_url_from_repo_path}
use version_control_tools_fx.Consumer.Files.{exists}
use version_control_tools_fx.Consumer.Io.{Io, ◌>>=◌, ◌>>◌, pure, gets, Hg, catch_command}
use version_control_tools_fx.Consumer.Process.{
  Settings, local_path, init_repo, stream_clone_repo, sync_existing,
}

module _ (hg : Hg) where
  -- A repository that is missing is cloned, or made empty where the clone fails.
  unfoldable pub create_repo : Settings → Text → Io (Unit {0})
  unfolding stream_clone_repo init_repo
  create_repo s path =
      catch_command
        (stream_clone_repo hg (get_pull_url_from_repo_path s.pull_url_rewrites path)
          (local_path s path))
        (init_repo hg (local_path s path))

  -- `process_hg_sync`
  unfoldable pub process_hg_sync :
      ℕ → Settings → Text → Option Text → List Text → Bool → Io (Unit {0})
  unfolding create_repo sync_existing
  process_hg_sync now s path hgrc heads create = do
    there ← gets (λ fs. exists fs (local_path s path))
    if there
        then sync_existing hg now s path hgrc heads
        else if create
        then (create_repo s path >> sync_existing hg now s path hgrc heads)
        else pure tt

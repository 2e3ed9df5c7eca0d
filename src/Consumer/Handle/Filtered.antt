-- ===== src/Consumer/Handle/Filtered.antt =====
-- The two decorators.
use version_control_tools_fx.Base.{ℕ, ◌∙◌, ◌≡◌, true, false, ◌∷◌, some, Text, contains, ◌==◌}
use version_control_tools_fx.Base.Result.{ok, err, command_error, type_error}
use version_control_tools_fx.Message.{Payload}
use version_control_tools_fx.Config.Filter.{RepoFilterResult, filter}
use version_control_tools_fx.Config.Filter.Decision.{allowed, filter-eq-allowed}
use version_control_tools_fx.Consumer.Files.{Fs}
use version_control_tools_fx.Consumer.Io.{Io, Hg, recover, Reply}
use version_control_tools_fx.Consumer.Process.{Settings, local_path}
use version_control_tools_fx.Consumer.Handle.{abandoned, autorecover, repofilter, run_recover}

-- A message for a repository that the filters do not allow changes nothing, and is no error, where
-- the filter answers.
pub repofilter-not_allowed :
    (s : Settings) (handler : Payload → Io (Unit {0})) (p : Payload) (c : ℕ) (cs : Text) (fs : Fs)
    {r : RepoFilterResult}
    → p.path ≡ some (c ∷ cs)
    → filter s.filters (c ∷ cs) ≡ ok r
    → allowed s.filters (c ∷ cs) ≡ false
    → repofilter s handler p fs ≡ (ok tt, fs)
unfolding repofilter
repofilter-not_allowed s handler p c cs fs {r} is_path answered denied =
    let fails : r.passes_filter ≡ false = filter-eq-allowed s.filters (c ∷ cs) answered ∙ denied in
    simp (is_path, repofilter, answered, fails)

-- A message for an allowed repository is passed to the handler, where the filter answers.
pub repofilter-allowed :
    (s : Settings) (handler : Payload → Io (Unit {0})) (p : Payload) (c : ℕ) (cs : Text) (fs : Fs)
    {r : RepoFilterResult}
    → p.path ≡ some (c ∷ cs)
    → filter s.filters (c ∷ cs) ≡ ok r
    → allowed s.filters (c ∷ cs) ≡ true
    → repofilter s handler p fs ≡ handler p fs
unfolding repofilter
repofilter-allowed s handler p c cs fs {r} is_path answered granted =
    let passes : r.passes_filter ≡ true = filter-eq-allowed s.filters (c ∷ cs) answered ∙ granted in
    simp (is_path, repofilter, answered, passes)

-- The handler has failed as an abandoned transaction makes it fail, and the repository opens.
pub record Abandoned (hg : Hg) (s : Settings) (handler : Payload → Io (Unit {0})) (p : Payload)
    (fs fs' : Fs) : Type 0 where
  pub stderr : Text
  pub failed : handler p fs ≡ (err (command_error stderr), fs')
  pub suggests : contains stderr abandoned ≡ true
  pub path : Text
  pub has_path : p.path ≡ some path
  pub opens : hg.opens (local_path s path) fs' ≡ ok tt

abbrev pub recovery : Hg → Settings → Text → Fs → Reply × Fs
recovery hg s path fs = hg.run (local_path s path) recover fs

module _ (hg : Hg) (s : Settings) (handler : Payload → Io (Unit {0})) (p : Payload) (fs fs' : Fs)
    (a : Abandoned hg s handler p fs fs') where
  -- After an abandoned transaction and a recovery that works, the message is handled once more,
  -- and that attempt decides.
  pub autorecover_retries :
      ((recovery hg s a.path fs').0.code == 0) ≡ true
      → autorecover hg s handler p fs ≡ handler p (recovery hg s a.path fs').1
  unfolding autorecover run_recover
  autorecover_retries works = rw (a.failed, a.suggests) (simp (a.has_path, a.opens, works))

  -- After an abandoned transaction and a recovery that fails, a `TypeError` leaves the handler: what is raised is the command's
  -- stderr and not the command's error.
  pub autorecover_gives_up :
      ((recovery hg s a.path fs').0.code == 0) ≡ false
      → autorecover hg s handler p fs ≡ (err type_error, (recovery hg s a.path fs').1)
  unfolding autorecover run_recover
  autorecover_gives_up fails = rw (a.failed, a.suggests) (simp (a.has_path, a.opens, fails))

-- A command error that does not suggest a recovery leaves `autorecover` as it is.
pub autorecover_passes_on :
    (hg : Hg) (s : Settings) (handler : Payload → Io (Unit {0})) (p : Payload) (fs fs' : Fs)
    (e : Text)
    → handler p fs ≡ (err (command_error e), fs')
    → contains e abandoned ≡ false
    → autorecover hg s handler p fs ≡ (err (command_error e), fs')
unfolding autorecover
autorecover_passes_on hg s handler p fs fs' e failed other = rw (failed, other)

-- ===== src/Bootstrap/Finish.antt =====
-- `hgweb` of bootstrap.py: the clones and the messages behind them as they complete, and the exit
-- code.
use version_control_tools_fx.Base.{ℕ, List, [], ◌∷◌, ◌++◌, Option, none, some, Text, find, assign}
use version_control_tools_fx.Base.Result.{Result, Error, ok, ◌>>=◌}
use version_control_tools_fx.Message.{Payload}
use version_control_tools_fx.Config.Filter.{Filters}
use version_control_tools_fx.Bootstrap.Schedule.{
  Report, no_sync_message, clone_failed, extra_failed, Audit, append_at, filter_all, Clone,
  Schedule, schedule_all,
}

-- What the threads do: whether a clone fails, and the messages behind it, and in which order they
-- complete.
pub record Threads : Type 0 where
  pub clone : Clone → Option Error
  pub seqmap : Text → List Payload → Option Error
  pub clones_completed : List Clone → List Clone
  pub extra_completed : List (Text × List Payload) → List (Text × List Payload)

-- The repositories that had no synchronization.
unfoldable pub report_missing : List Text → Audit → Audit
unfolding find assign
report_missing [] audit = audit
report_missing (r ∷ rs) audit = report_missing rs (append_at r no_sync_message audit)

abbrev pub report : (Error → Report) → Text → Option Error → Audit → Audit
report kind repo none audit = audit
report kind repo (some e) audit = append_at repo (kind e) audit

abbrev pub batch : Text → Option (List Payload) → List (Text × List Payload)
batch repo none = []
batch repo (some ps) = (repo, ps) ∷ []

-- The clones as they complete: the audit, and the batches of messages that are scheduled.
unfoldable pub finish_clones :
    Threads → List (Text × List Payload) → List Clone → Audit → Audit × List (Text × List Payload)
unfolding find assign
finish_clones t extra [] audit = (audit, [])
finish_clones t extra (c ∷ cs) audit =
    let (audit', more) = finish_clones t extra cs (report clone_failed c.path (t.clone c) audit) in
    (audit', batch c.path (find c.path extra) ++ more)

unfoldable pub finish_extra : Threads → List (Text × List Payload) → Audit → Audit
unfolding find assign
finish_extra t [] audit = audit
finish_extra t ((repo, ps) ∷ rest) audit =
    finish_extra t rest (report extra_failed repo (t.seqmap repo ps) audit)

-- What the run leaves: the calls that it made, the audit, and the exit code.
pub record Outcome : Type 0 where
  pub clones : List Clone
  pub batches : List (Text × List Payload)
  pub audit : Audit
  pub code : ℕ

abbrev pub exit_code : Audit → ℕ
exit_code [] = 0
exit_code (r ∷ rs) = 1

unfoldable pub finish : Threads → Schedule → Audit → Outcome
unfolding report_missing finish_clones finish_extra
finish t s audit =
    let (audit', batches) =
      finish_clones t s.extra (t.clones_completed s.clones) (report_missing s.to_clone audit) in
    let last = finish_extra t (t.extra_completed batches) audit' in
    record { clones = s.clones; batches = batches; audit = last; code = exit_code last }

abbrev pub start : List Text → Schedule
start repos = record { to_clone = repos; clones = []; extra = [] }

-- `hgweb` behind the reading: the repositories of the handover and the messages that were read
unfoldable pub hgweb : Filters → Threads → List Text → List Payload → Result Outcome
unfolding filter_all schedule_all finish
hgweb f t repositories messages = do
  (repos, audit) ← filter_all f repositories ([], [])
  s ← schedule_all audit messages (start repos)
  ok (finish t s audit)

-- ===== src/Consumer/Handle.antt =====
-- `handle_message_main` and `handle_message_heads` of consumer.py with their decorators. A message
-- is first read as the call that it stands for, and then the call is made.
pub mod Protocol
pub mod Filtered
use text.Mathlib.Text.{◌==◌ as str_eq}
use version_control_tools_fx.Base.{
  ℕ, Bool, true, false, not, List, [], ◌∷◌, Option, none, some, Text, String, codes, contains,
  length, ◌==◌, if◌then◌else◌,
}
use version_control_tools_fx.Base.Result.{
  Result, Error, ok, err, key_error, value_error, type_error, command_error, require, ◌>>=◌ as bind,
}
use version_control_tools_fx.Message.{Payload}
use version_control_tools_fx.Config.Filter.{RepoFilterResult, filter}
use version_control_tools_fx.Consumer.Files.{Fs}
use version_control_tools_fx.Consumer.Io.{
  Io, ◌>>=◌, ◌>>◌, pure, raise, lift, Hg, recover, Reply, command,
}
use version_control_tools_fx.Consumer.Process.{
  Settings, local_path, process_hg_repo_init, process_hg_hgrc_update, process_hg_changegroup,
  process_hg_pushkey,
}
use version_control_tools_fx.Consumer.Sync.{process_hg_sync}
use version_control_tools_fx.Consumer.Delete.{process_hg_delete}
use version_control_tools_fx.Consumer.Heads.{process_hg_heads}

pub data Call : Type 0 where
  ignore : Call
  repo_init : Text → Bool → Call
  hgrc_update : Text → Option Text → Call
  changegroup : Text → Text → ℕ → List Text → Call
  pushkey : Text → Text → Text → Text → Text → ℕ → Call
  sync : Text → List Text → Option Text → List Text → Call
  delete : Text → Call

infixl 5 ◌then_get◌
abbrev ◌then_get◌ : {A B : Type 0} → Option A → (A → Result B) → Result B
m then_get f = bind (require key_error m) f

abbrev read_changegroup_1 : Payload → Result Call
read_changegroup_1 p = p.path then_get λ path. p.source then_get λ source. p.nodes then_get λ nodes.
    p.heads then_get λ heads. ok (changegroup path source (length nodes) heads)

abbrev read_changegroup_2 : Payload → Result Call
read_changegroup_2 p = p.path then_get λ path. p.source then_get λ source.
    p.nodecount then_get λ nodecount.
    p.heads then_get λ heads. ok (changegroup path source nodecount heads)

abbrev read_pushkey : Payload → Result Call
read_pushkey p = p.path then_get λ path. p.namespace then_get λ namespace. p.key then_get λ key.
    p.old then_get λ old.
    p.new then_get λ new. p.ret then_get λ ret. ok (pushkey path namespace key old new ret)

abbrev read_sync : Payload → Result Call
read_sync p = p.path then_get λ path. p.requirements then_get λ requirements.
    p.hgrc then_get λ hgrc. p.heads then_get λ heads. ok (sync path requirements hgrc heads)

-- A synchronization that is part of a bootstrap is not for this consumer.
abbrev read_sync_2 : Payload → Result Call
read_sync_2 p = p.bootstrap then_get λ bootstrap. if bootstrap then ok ignore else read_sync p

-- The branches of `handle_message_main`.
unfoldable pub read_named : String → Payload → Result Call
read_named name p =
    if str_eq name "heartbeat-1"
    then ok ignore
    else if str_eq name "hg-repo-init-1"
    then (p.path then_get λ path. ok (repo_init path false))
    else if str_eq name "hg-repo-init-2"
    then (p.path then_get λ path. p.generaldelta then_get λ g. ok (repo_init path g))
    else if str_eq name "hg-hgrc-update-1"
    then (p.path then_get λ path. p.content then_get λ content. ok (hgrc_update path content))
    else if str_eq name "hg-changegroup-1"
    then read_changegroup_1 p
    else if str_eq name "hg-changegroup-2"
    then read_changegroup_2 p
    else if str_eq name "hg-pushkey-1"
    then read_pushkey p
    else if str_eq name "hg-repo-sync-1"
    then read_sync p
    else if str_eq name "hg-repo-sync-2"
    then read_sync_2 p
    else if str_eq name "hg-heads-1"
    then ok ignore
    else if str_eq name "hg-repo-delete-1"
    then (p.path then_get λ path. ok (delete path))
    else err value_error

unfoldable pub read_call : Payload → Result Call
unfolding read_named
read_call p = p.name then_get λ name. read_named name p

module _ (hg : Hg) (now : ℕ) (s : Settings) where
  -- `process_hg_repo_init` ignores `generaldelta`, and `process_hg_sync` the requirements.
  unfoldable pub perform : Call → Io (Unit {0})
  perform ignore = pure tt
  perform (repo_init path generaldelta) = process_hg_repo_init hg s path
  perform (hgrc_update path content) = process_hg_hgrc_update now s path content
  perform (changegroup path source nodecount heads) = process_hg_changegroup hg s path heads
  perform (pushkey path namespace key old new ret) =
      process_hg_pushkey hg s path namespace key old new ret
  perform (sync path requirements hgrc heads) = process_hg_sync hg now s path hgrc heads false
  perform (delete path) = process_hg_delete s path

  -- The function below the decorators.
  unfoldable pub handle_main : Payload → Io (Unit {0})
  unfolding perform
  handle_main p = do call ← lift (read_call p); perform call

-- What a command writes that has met an abandoned transaction.
abbrev pub abandoned : Text
abandoned = codes "run 'hg recover' to clean up transaction"

module _ (hg : Hg) (s : Settings) where
  -- `hg recover`. Its failure raises what the command wrote, which is no exception.
  unfoldable pub run_recover : Payload → Io (Unit {0})
  run_recover p = do
    path ← lift (require key_error p.path)
    (λ fs. (hg.opens (local_path s path) fs, fs))
    r ← command (hg.run (local_path s path) recover)
    if r.code == 0 then pure tt else raise type_error

  abbrev recovered :
      (Payload → Io (Unit {0})) → Payload → Result (Unit {0}) × Fs → Result (Unit {0}) × Fs
  recovered handler p (err (command_error e), fs) =
      if contains e abandoned then (run_recover p >> handler p) fs else (err (command_error e), fs)
  recovered handler p (r, fs) = (r, fs)

  -- `autorecover`
  unfoldable pub autorecover : (Payload → Io (Unit {0})) → Payload → Io (Unit {0})
  autorecover handler p fs = recovered handler p (handler p fs)

-- `repofilter`
unfoldable pub repofilter : Settings → (Payload → Io (Unit {0})) → Payload → Io (Unit {0})
repofilter s handler p = elim p.path [
  | none ↦ pure tt
  | some [] ↦ pure tt
  | some (c ∷ cs) ↦ do
    r ← lift (filter s.filters (c ∷ cs))
    if r.passes_filter then handler p else pure tt
]

-- `handle_message_main`
unfoldable pub handle_message_main : Hg → ℕ → Settings → Payload → Io (Unit {0})
unfolding repofilter autorecover handle_main
handle_message_main hg now s = repofilter s (autorecover hg s (handle_main hg now s))

abbrev read_heads : (Option ℕ → List (List ℕ) → List ℕ) → ℕ → Settings → Payload → Io (Unit {0})
read_heads cbor now s p = do
  path ← lift (require key_error p.path)
  heads ← lift (require key_error p.heads)
  last_push_id ← lift (require key_error p.last_push_id)
  process_hg_heads cbor now s path heads last_push_id

-- The function below the decorator of `handle_message_heads`.
unfoldable pub handle_heads :
    (Option ℕ → List (List ℕ) → List ℕ) → ℕ → Settings → Payload → Io (Unit {0})
handle_heads cbor now s p = do
  name ← lift (require key_error p.name)
  if str_eq name "hg-heads-1" then read_heads cbor now s p else pure tt

-- `handle_message_heads`
unfoldable pub handle_message_heads :
    (Option ℕ → List (List ℕ) → List ℕ) → ℕ → Settings → Payload → Io (Unit {0})
unfolding repofilter handle_heads
handle_message_heads cbor now s = repofilter s (handle_heads cbor now s)

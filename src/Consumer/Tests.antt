-- ===== src/Consumer/Tests.antt =====
-- A consumer on a small mirror: `hg` knows one command, and the files are those of one repository.
use version_control_tools_fx.Base.{
  dirname, ℕ, ◌≡◌, refl, true, false, ◌||◌, List, [], ◌∷◌, Option, none, some, Text, codes, text_eq,
  starts_with, if◌then◌else◌,
}
use version_control_tools_fx.Base.Result.{ok}
use version_control_tools_fx.Message.{Payload, empty}
use version_control_tools_fx.Message.Produce.{send_heartbeat}
use version_control_tools_fx.Message.Display.{payload_log_display}
use version_control_tools_fx.Config.Rewrite.{replace, parse_wire_repo_path}
use version_control_tools_fx.Config.Load.{Config, no_filters}
use version_control_tools_fx.Consumer.Files.{file, directory, Fs, at_or_below, join_path}
use version_control_tools_fx.Consumer.Io.{Io, pure}
use version_control_tools_fx.Consumer.Process.{Settings, local_path}
use version_control_tools_fx.Consumer.Delete.{destination, process_hg_delete}
use version_control_tools_fx.Consumer.Delete.Gone.{Movable, delete_gone, backup_keeps}
use version_control_tools_fx.Consumer.Heads.{data_path, unhexlify_all, process_hg_heads}
use version_control_tools_fx.Consumer.Heads.Outcome.{Replaces, logged, heads_replaced}
use version_control_tools_fx.Consumer.Handle.{read_call}
use version_control_tools_fx.Consumer.Handle.Protocol.{
  payload_of, call_of, synced, read_call-payload_of,
}
use version_control_tools_fx.Consumer.Loop.{Message, got, waiting, process, consume}
use version_control_tools_fx.Consumer.Loop.Commits.{InOrder, done, next, consume-InOrder}
use version_control_tools_fx.Consumer.Loop.Ends.{consume_all}

abbrev config : Config
config = record {
  path_rewrites = (codes "{moz}", codes "/r") ∷ [];
  pull_url_rewrites = [];
  public_url_rewrites = [];
  replication_path_rewrites = [];
  filters = no_filters;
}

abbrev settings : Settings
settings = record { config = config; backup = false; todelete_path = some (codes "/d") }

abbrev wire_path : Text
wire_path = codes "{moz}/a"

-- The repository `/r/a` with one file of replicated data, beside `/d`.
abbrev files : Fs
files p =
    if text_eq p (codes "/r/a") || (text_eq p (codes "/r/a/.hg") || text_eq p (codes "/d"))
    then some directory
    else if text_eq p (codes "/r/a/.hg/replicated-data")
    then some (file [] 7)
    else none

abbrev heartbeat : Message
heartbeat = (2, send_heartbeat)

abbrev nameless : Message
nameless = (2, empty)

abbrev accept : Payload → Io (Unit {0})
accept p = pure tt

consume-InOrder_example :
    InOrder accept
      (got heartbeat (ok tt) ∷ got nameless (ok tt) ∷ [])
      files
      (consume accept false (got heartbeat (ok tt) ∷ got nameless (ok tt) ∷ []) files)
consume-InOrder_example =
    consume-InOrder accept false (got heartbeat (ok tt) ∷ got nameless (ok tt) ∷ []) files

accepts : process accept heartbeat files ≡ (ok tt, files)
unfolding process payload_log_display
accepts = refl

consume_all_example :
    consume accept false (got heartbeat (ok tt) ∷ []) files
    ≡ record { committed = heartbeat ∷ []; files = files; end = waiting }
consume_all_example =
    consume_all accept (got heartbeat (ok tt) ∷ []) files files (refl, tt) (next accepts done)

read_call_example :
    read_call (payload_of (synced wire_path none [] (codes "b" ∷ codes "a" ∷ []) false))
    ≡ ok (call_of (synced wire_path none [] (codes "b" ∷ codes "a" ∷ []) false))
read_call_example =
    read_call-payload_of (synced wire_path none [] (codes "b" ∷ codes "a" ∷ []) false)

movable : Movable (local_path settings wire_path) (destination settings wire_path) files
unfolding parse_wire_repo_path text_eq at_or_below dirname starts_with replace
movable = record { is_directory = refl; dest_free = refl; dest_directory = refl; apart = refl }

delete_gone_example : (process_hg_delete settings wire_path files).1 (codes "/r/a/.hg") ≡ (
    if at_or_below (local_path settings wire_path) (codes "/r/a/.hg")
      || at_or_below (destination settings wire_path) (codes "/r/a/.hg")
    then none
    else files (codes "/r/a/.hg"))
delete_gone_example = delete_gone settings wire_path files (codes "/r/a/.hg") refl movable

backup_keeps_example :
    process_hg_delete (record settings { backup = true }) wire_path files ≡ (ok tt, files)
backup_keeps_example = backup_keeps (record settings { backup = true }) wire_path files refl

abbrev encode : Option ℕ → List (List ℕ) → List ℕ
encode id nodes = 1 ∷ []

replaces : Replaces settings wire_path [] files
unfolding unhexlify_all parse_wire_repo_path text_eq dirname join_path starts_with replace
replaces = record {
  lengths = refl;
  nodes = [];
  decoded = refl;
  in_directory = refl;
  tmp_free = tt;
  old = [];
  old_mtime = 7;
  there = refl;
}

heads_replaced_example :
    ((process_hg_heads encode 8 settings wire_path [] none files).1 (data_path settings wire_path)
      ≡ some (file (1 ∷ []) 8))
    × ((process_hg_heads encode 8 settings wire_path [] none files).0 ≡ logged none)
heads_replaced_example = heads_replaced encode 8 settings wire_path [] none files replaces

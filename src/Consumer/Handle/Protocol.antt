-- ===== src/Consumer/Handle/Protocol.antt =====
-- What the producer records is what the consumer does.
use version_control_tools_fx.Base.{
  ℕ, ◌≡◌, refl, Bool, true, false, List, Option, Text, length, sorted_texts, if◌then◌else◌,
}
use version_control_tools_fx.Base.Result.{ok}
use version_control_tools_fx.Message.Produce.{
  send_heartbeat, record_new_hg_repo, record_hgrc_update, record_hg_changegroup, record_hg_pushkey,
  record_hg_repo_sync, record_hg_repo_heads, record_hg_repo_delete,
}
use version_control_tools_fx.Consumer.Handle.{
  Call, ignore, repo_init, hgrc_update, changegroup, pushkey, sync, delete, read_call,
}
use version_control_tools_fx.Message.{Payload}

-- The events that the hooks on the master record.
pub data Event : Type 0 where
  heartbeat : Event
  new_repo : Text → Bool → Event
  new_hgrc : Text → Option Text → Event
  pushed : Text → Text → List Text → List Text → Event
  pushed_key : Text → Text → Text → Text → Text → ℕ → Event
  synced : Text → Option Text → List Text → List Text → Bool → Event
  has_heads : Text → List Text → Option ℕ → Event
  deleted : Text → Event

abbrev pub payload_of : Event → Payload
payload_of heartbeat = send_heartbeat
payload_of (new_repo path generaldelta) = record_new_hg_repo path generaldelta
payload_of (new_hgrc path content) = record_hgrc_update path content
payload_of (pushed path source nodes heads) = record_hg_changegroup path source nodes heads
payload_of (pushed_key path namespace key old new ret) =
    record_hg_pushkey path namespace key old new ret
payload_of (synced path hgrc heads requirements bootstrap) =
    record_hg_repo_sync path hgrc heads requirements bootstrap
payload_of (has_heads path heads last_push_id) = record_hg_repo_heads path heads last_push_id
payload_of (deleted path) = record_hg_repo_delete path

-- The call that the main consumer owes an event.
abbrev pub call_of : Event → Call
call_of heartbeat = ignore
call_of (new_repo path generaldelta) = repo_init path generaldelta
call_of (new_hgrc path content) = hgrc_update path content
call_of (pushed path source nodes heads) = changegroup path source (length nodes) heads
call_of (pushed_key path namespace key old new ret) = pushkey path namespace key old new ret
call_of (synced path hgrc heads requirements bootstrap) =
    if bootstrap then ignore else sync path (sorted_texts requirements) hgrc heads
call_of (has_heads path heads last_push_id) = ignore
call_of (deleted path) = delete path

-- Whatever is recorded reaches the function for it, with the arguments that were recorded.
pub read_call-payload_of : (e : Event) → read_call (payload_of e) ≡ ok (call_of e)
unfolding read_call record_hg_repo_sync
read_call-payload_of (synced path hgrc heads requirements true) = refl
read_call-payload_of (synced path hgrc heads requirements false) = refl
read_call-payload_of _ = refl

-- ===== src/Message/Produce.antt =====
-- producer.py: what each `record_…` function sends, and the retry of `Producer.send_message`. The
-- Kafka client is a list of answers to its sends.
use version_control_tools_fx.Base.{
  ℕ, Bool, true, false, List, [], ◌∷◌, Option, some, Text, sorted_texts, length,
}
use version_control_tools_fx.Base.Result.{Result, ok, err, other_error}
use version_control_tools_fx.Message.{Payload, empty}

-- The values handed to `json.dumps` and put behind the header, with the partition.
pub record Sent : Type 0 where
  pub partition : ℕ
  pub payload : Payload

-- One attempt is a `KafkaError` where the answer is false. Behind a failed attempt the client is
-- reinitialised, and there is one more attempt, whose error reaches the caller. The client may
-- have taken a message that it reports as failed, so both attempts are listed. An error of another
-- class in the first attempt is not modelled.
pub record Attempts : Type 0 where
  pub sent : List Sent
  pub result : Result (Unit {0})

unfoldable pub send_retry : Bool → Sent → Attempts
send_retry true m = record { sent = m ∷ m ∷ []; result = ok tt }
send_retry false m = record { sent = m ∷ m ∷ []; result = err other_error }

-- `Producer.send_message` at the time `now`, with the answers to the first and second attempt
unfoldable pub send_message : ℕ → Bool → Bool → Payload → ℕ → Attempts
unfolding send_retry
send_message now first second o partition =
    let m : Sent = record { partition = partition; payload = record o { created = some now } } in
    elim first [ true ↦ record { sent = m ∷ []; result = ok tt } | false ↦ send_retry second m ]

abbrev pub send_heartbeat : Payload
send_heartbeat = record empty { name = some "heartbeat-1" }

abbrev pub record_new_hg_repo : Text → Bool → Payload
record_new_hg_repo path generaldelta = record empty {
  name = some "hg-repo-init-2";
  path = some path;
  generaldelta = some generaldelta;
}

abbrev pub record_hgrc_update : Text → Option Text → Payload
record_hgrc_update path content = record empty {
  name = some "hg-hgrc-update-1";
  path = some path;
  content = some content;
}

abbrev pub record_hg_changegroup : Text → Text → List Text → List Text → Payload
record_hg_changegroup path source nodes heads = record empty {
  name = some "hg-changegroup-2";
  path = some path;
  source = some source;
  nodecount = some (length nodes);
  heads = some heads;
}

abbrev pub record_hg_pushkey : Text → Text → Text → Text → Text → ℕ → Payload
record_hg_pushkey path namespace key old new ret = record empty {
  name = some "hg-pushkey-1";
  path = some path;
  namespace = some namespace;
  key = some key;
  old = some old;
  new = some new;
  ret = some ret;
}

unfoldable pub record_hg_repo_sync : Text → Option Text → List Text → List Text → Bool → Payload
unfolding sorted_texts
record_hg_repo_sync path hgrc heads requirements bootstrap = record empty {
  name = some "hg-repo-sync-2";
  path = some path;
  requirements = some (sorted_texts requirements);
  hgrc = some hgrc;
  heads = some heads;
  bootstrap = some bootstrap;
}

abbrev pub record_hg_repo_heads : Text → List Text → Option ℕ → Payload
record_hg_repo_heads path heads last_push_id = record empty {
  name = some "hg-heads-1";
  path = some path;
  heads = some heads;
  last_push_id = some last_push_id;
}

abbrev pub record_hg_repo_delete : Text → Payload
record_hg_repo_delete path = record empty { name = some "hg-repo-delete-1"; path = some path }

-- ===== src/Master/Tests.antt =====
-- A push of one changeset, and one that meets a broken replication log.
use version_control_tools_fx.Base.{
  ◌≡◌, refl, true, List, [], ◌∷◌, ◌++◌, map, some, Text, codes, ltb,
}
use version_control_tools_fx.Base.Result.{ok}
use version_control_tools_fx.Message.{Payload}
use version_control_tools_fx.Consumer.Handle.{read_call}
use version_control_tools_fx.Consumer.Handle.Protocol.{payload_of, call_of, heartbeat}
use version_control_tools_fx.Master.Log.{Log, send}
use version_control_tools_fx.Master.Hooks.{number, pretxnopenhook, pretxnclosehook}
use version_control_tools_fx.Master.Transaction.{
  Push, pushkey_update, changegroup_update, closed, transaction, close_transaction,
}
use version_control_tools_fx.Master.Transaction.Recorded.{
  recorded, transaction_records, transaction_replays,
}
use version_control_tools_fx.Master.Transaction.Refused.{Beats, RolledBack, transaction-Beats}

abbrev push : Push
push = record {
  updates =
      pushkey_update (codes "bookmarks") (codes "b") [] (codes "n") (number 0)
      ∷ changegroup_update
      ∷ [];
  served_before = codes "m" ∷ [];
  served_after = codes "n" ∷ [];
  markers = [];
  source = codes "push";
  heads = codes "n" ∷ [];
  nodes = codes "n" ∷ [];
  last_push_id = some 4;
}

abbrev path : Text
path = codes "{moz}/a"

abbrev working : Log
working = record { written = []; sends = 0; answers = λ n. true }

-- Kafka takes the first send only.
abbrev failing : Log
failing = record { written = []; sends = 0; answers = λ n. ltb n 1 }

transaction_records_example :
    ((transaction path push working).0 ≡ closed (ok tt))
    × ((transaction path push working).1.written
        ≡ [] ++ map payload_of (heartbeat ∷ heartbeat ∷ recorded path push))
transaction_records_example = transaction_records path push working (λ n. refl)

transaction_replays_example :
    (sent : List Payload) × ((transaction path push working).1.written ≡ [] ++ sent)
    × (map read_call sent ≡ map (λ e. ok (call_of e)) (heartbeat ∷ heartbeat ∷ recorded path push))
transaction_replays_example = transaction_replays path push working (λ n. refl)

is_RolledBack : RolledBack (transaction path push failing).0
unfolding transaction send pretxnopenhook close_transaction pretxnclosehook
is_RolledBack = tt

rolled_back_example : Beats failing (transaction path push failing).1
rolled_back_example = transaction-Beats path push failing is_RolledBack

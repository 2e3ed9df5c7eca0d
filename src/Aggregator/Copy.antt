-- ===== src/Aggregator/Copy.antt =====
-- `_copy_messages` and `copy_messages` of aggregator.py. What Kafka answers to each poll of the
-- loop is a list; a loop that has read the whole list is still waiting.
pub mod Single
pub mod Effects
pub mod Progress
use version_control_tools_fx.Base.{
  ℕ, zero, suc, Bool, true, false, ◌&&◌, List, [], ◌∷◌, ◌++◌, Option, none, some, map,
  if◌then◌else◌,
}
use version_control_tools_fx.Base.Result.{
  Result, Error, ok, err, key_error, other_error, require, ◌>>=◌, ◌>>◌,
}
use version_control_tools_fx.Message.{Payload}
use version_control_tools_fx.Message.Produce.{Sent, Attempts, send_message}
use version_control_tools_fx.Message.Display.{payload_log_display}

pub record Received : Type 0 where
  pub partition : ℕ
  pub payload : Payload

-- What happens to a copy: the time at which it is sent, whether Kafka takes the first and the
-- second attempt, and whether the offset is committed.
pub record Delivery : Type 0 where
  pub now : ℕ
  pub first : Bool
  pub second : Bool
  pub committed : Bool

pub data Answer : Type 0 where
  nothing : Answer
  broken : Error → Answer
  got : Received → Delivery → Answer

-- One poll, and whether no signal arrives before the loop's next test.
abbrev pub Poll : Type 0
Poll = Answer × Bool

pub data Effect : Type 0 where
  send : Sent → Effect
  commit : ℕ → Effect

pub data End : Type 0 where
  returned waiting : End
  raised : Error → End

pub record Copying : Type 0 where
  pub effects : List Effect
  pub left : ℕ
  pub end : End
  pub alive : Bool

-- The payload with the two keys that the copy adds.
unfoldable pub annotate : Received → ℕ → Payload
annotate m created = record m.payload {
  original_created = some created;
  original_partition = some m.partition;
}

-- The copy's attempts, once it has been logged.
unfoldable pub send_copy : Received → Delivery → Result Attempts
unfolding payload_log_display annotate send_message
send_copy m d = do
  payload_log_display m.payload
  created ← require key_error m.payload.created
  ok (send_message d.now d.first d.second (annotate m created) 0)

-- Behind an accepted copy, the commit.
unfoldable pub commit_copy : Received → Delivery → Attempts → List Effect × Result (Unit {0})
commit_copy m d a =
    let sends = map send a.sent in
    elim a.result [
      | err e ↦ (sends, err e)
      | ok _ ↦
          if d.committed
          then (sends ++ commit m.partition ∷ [], ok tt)
          else (sends, err other_error)
    ]

-- The body of the loop for a message.
unfoldable pub copy_one : Received → Delivery → List Effect × Result (Unit {0})
copy_one m d = elim (send_copy m d) [ err e ↦ ([], err e) | ok a ↦ commit_copy m d a ]

abbrev pub after : List Effect → Copying → Copying
after effects c = record c { effects = effects ++ c.effects }

-- `_copy_messages`
unfoldable pub copy_loop : ℕ → Bool → List Poll → Copying
copy_loop zero alive polls = record { effects = []; left = 0; end = returned; alive = alive }
copy_loop (suc n) false polls = record { effects = []; left = suc n; end = returned; alive = false }
copy_loop (suc n) true [] = record { effects = []; left = suc n; end = waiting; alive = true }
copy_loop (suc n) true ((nothing, quiet) ∷ ps) = copy_loop (suc n) quiet ps
copy_loop (suc n) true ((broken e, quiet) ∷ ps) = record {
  effects = [];
  left = suc n;
  end = raised e;
  alive = quiet;
}
copy_loop (suc n) true ((got m d, quiet) ∷ ps) =
    let (effects, result) = copy_one m d in
    elim result [
      | ok _ ↦ after effects (copy_loop n quiet ps)
      | err e ↦ record { effects = effects; left = suc n; end = raised e; alive = quiet }
    ]

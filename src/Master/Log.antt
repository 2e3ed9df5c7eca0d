-- ===== src/Master/Log.antt =====
-- The replication log as the hooks see it: what has been written, and which send fails.
use version_control_tools_fx.Base.{ℕ, suc, ◌≡◌, Bool, true, List, [], ◌∷◌, ◌++◌, if◌then◌else◌}
use version_control_tools_fx.Base.Result.{Result, ok, err, other_error}
use version_control_tools_fx.Message.{Payload}

-- `answers n` says whether Kafka takes the send with the number `n`.
pub record Log : Type 0 where
  pub written : List Payload
  pub sends : ℕ
  pub answers : ℕ → Bool

abbrev pub Sending : Type 0
Sending = Log → Result (Unit {0}) × Log

-- A send, with the retry of the producer in its one answer: an exception writes nothing. The key
-- `_created`, which the producer adds to each message, is left out.
unfoldable pub send : Payload → Sending
send p l =
    if l.answers l.sends
    then (ok tt, record l { written = l.written ++ p ∷ []; sends = suc l.sends })
    else (err other_error, record l { sends = suc l.sends })

abbrev pub continue : Result (Unit {0}) × Log → Sending → Result (Unit {0}) × Log
continue (ok _, l) next = next l
continue (err e, l) next = (err e, l)

-- One message behind the other, up to the first exception.
unfoldable pub send_all : List Payload → Sending
unfolding send
send_all [] l = (ok tt, l)
send_all (p ∷ ps) l = continue (send p l) (send_all ps)

-- Kafka takes each send.
abbrev pub Up : Log → Type 0
Up l = (n : ℕ) → l.answers n ≡ true

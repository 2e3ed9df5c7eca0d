-- ===== src/Consumer/Loop.antt =====
-- `consume` of consumer.py: the main loop of both consumers. What Kafka answers to the polls is a
-- list; a loop that has read it all is still waiting. A signal raises `shutdown` out of the poll,
-- the handler or the commit.
pub mod Commits
pub mod Ends
use version_control_tools_fx.Base.{ℕ, Bool, true, false, List, [], ◌∷◌, if◌then◌else◌}
use version_control_tools_fx.Base.Result.{Result, Error, shutdown, ok, err}
use version_control_tools_fx.Message.{Payload}
use version_control_tools_fx.Message.Display.{payload_log_display}
use version_control_tools_fx.Consumer.Files.{Fs}
use version_control_tools_fx.Consumer.Io.{Io, ◌>>=◌, ◌>>◌, pure, lift}

-- A message is the partition that it comes from and its payload.
abbrev pub Message : Type 0
Message = ℕ × Payload

pub data Input : Type 0 where
  empty : Input
  -- the poll raises, as `value_deserializer` does without the header
  broken : Error → Input
  -- with what the commit answers
  got : Message → Result (Unit {0}) → Input

pub data End : Type 0 where
  returned waiting : End
  raised : Error → End

pub record Consumed : Type 0 where
  pub committed : List Message
  pub files : Fs
  pub end : End

-- `except ShutDownException`
abbrev pub leave : Error → End
leave shutdown = returned
leave e = raised e

-- The log line and the handler.
unfoldable pub process : (Payload → Io (Unit {0})) → Message → Io (Unit {0})
process handler m = do lift (payload_log_display m.1); handler m.1

abbrev pub with_message : Message → Consumed → Consumed
with_message m c = record c { committed = m ∷ c.committed }

abbrev pub stopped : Fs → End → Consumed
stopped fs end = record { committed = []; files = fs; end = end }

-- Behind a message that has been processed: the commit, and the rest of the loop.
unfoldable pub commit_then : Bool → Message → Result (Unit {0}) → Fs → Consumed → Consumed
commit_then onetime m (err e) fs rest = stopped fs (leave e)
commit_then onetime m (ok _) fs rest =
    with_message m (if onetime then stopped fs returned else rest)

-- `consume`
unfoldable pub consume : (Payload → Io (Unit {0})) → Bool → List Input → Fs → Consumed
consume handler onetime [] fs = stopped fs waiting
consume handler onetime (empty ∷ inputs) fs =
    let rest = consume handler onetime inputs fs in if onetime then stopped fs returned else rest
consume handler onetime (broken e ∷ inputs) fs = stopped fs (leave e)
consume handler onetime (got m answer ∷ inputs) fs =
    let (r, fs') = process handler m fs in
    elim r [
      | err e ↦ stopped fs' (leave e)
      | ok _ ↦ commit_then onetime m answer fs' (consume handler onetime inputs fs')
    ]

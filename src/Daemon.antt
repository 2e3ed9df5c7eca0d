-- ===== src/Daemon.antt =====
-- pylib/vcsreplicator/vcsreplicator/daemon.py: `run_in_loop` with its signal handler. The function
-- that is called each time is a function of the state and of the signals that arrive meanwhile.
pub mod Stops
mod Tests
use version_control_tools_fx.Base.{
  ℕ, zero, suc, ◌+◌, Bool, true, false, List, [], ◌∷◌, Option, none, some, ◌==◌, if◌then◌else◌,
}
use version_control_tools_fx.Base.Result.{Result, Error, ok, err}

-- `signal_count[0]` and `alive[0]`
pub record Signals : Type 0 where
  pub signal_count : ℕ
  pub alive : Bool

-- `signal_exit`: the second signal leaves the process at once, with code 1.
unfoldable pub signal_exit : Signals → Signals × Bool
signal_exit s =
    let s' : Signals = record { signal_count = s.signal_count + 1; alive = false } in
    (s', if s.signal_count + 1 == 1 then false else true)

pub data Exit : Type 0 where
  -- `run_in_loop` returns this code
  code : ℕ → Exit
  -- `sys.exit(1)` from the handler
  aborted : Exit
  -- the loop still runs
  running : Exit

-- What happens while `fn` runs once: the signals that arrive, whether `fn` itself clears `alive`,
-- and whether it raises.
pub record Iteration : Type 0 where
  pub signals : ℕ
  pub clears : Bool
  pub raises : Bool

-- The handler, called for each signal; the flag says that the process has been left.
unfoldable pub deliver : ℕ → Signals → Signals × Bool
unfolding signal_exit
deliver zero s = (s, false)
deliver (suc n) s =
    let (s', left) = signal_exit s in let rest = deliver n s' in if left then (s', true) else rest

-- Behind a call of `fn`: `alive` as `fn` leaves it.
abbrev pub settle : Iteration → Signals → Signals
settle i s = if i.clears then record s { alive = false } else s

abbrev pub count_call : ℕ × Exit → ℕ × Exit
count_call (calls, exit) = (calls + 1, exit)

-- One round of the loop with `alive` set: `rest` is what the later rounds come to.
unfoldable pub round : Bool → Iteration → Bool → ℕ × Exit → ℕ × Exit
round onetime i left rest =
    if left
    then (1, aborted)
    else if i.raises
    then (1, code 1)
    else if onetime
    then (1, code 0)
    else count_call rest

-- `run_in_loop`, from a state of the signals: the number of calls of `fn`, and how it is left.
unfoldable pub run_from : Bool → List Iteration → Signals → ℕ × Exit
unfolding round deliver
run_from onetime [] s = if s.alive then (0, running) else (0, code 0)
run_from onetime (i ∷ is) s =
    let (s', left) = deliver i.signals s in
    let rest = run_from onetime is (settle i s') in
    if s.alive then round onetime i left rest else (0, code 0)

unfoldable pub run_in_loop : Bool → List Iteration → ℕ × Exit
unfolding run_from
run_in_loop onetime is = run_from onetime is (record { signal_count = 0; alive = true })

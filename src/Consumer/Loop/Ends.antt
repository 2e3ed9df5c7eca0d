-- ===== src/Consumer/Loop/Ends.antt =====
-- How the consumer's loop goes on, and what ends it.
use text.Mathlib.Text.{◌==◌ as str_eq}
use version_control_tools_fx.Base.{ℕ, String, ap, ◌≡◌, refl, Bool, false, List, [], ◌∷◌, none, some}
use version_control_tools_fx.Base.Result.{Result, key_error, ok, err}
use version_control_tools_fx.Message.{Payload}
use version_control_tools_fx.Message.Display.{payload_log_display, payload_logs}
use version_control_tools_fx.Consumer.Files.{Fs}
use version_control_tools_fx.Consumer.Io.{Io}
use version_control_tools_fx.Consumer.Loop.{
  Input, empty, broken, got, waiting, raised, Consumed, process, commit_then, consume,
}
use version_control_tools_fx.Consumer.Loop.Commits.{messages, Handles, done, next}

-- No poll raises, and each commit is taken.
abbrev pub Answers : List Input → Type 0
Answers [] = Unit
Answers (empty ∷ inputs) = Answers inputs
Answers (broken e ∷ inputs) = ⊥
Answers (got m answer ∷ inputs) = (answer ≡ ok tt) × Answers inputs

-- Where no poll raises, each commit is taken and the handler takes each message, all are
-- committed, and the loop waits for more.
pub consume_all :
    (handler : Payload → Io (Unit {0})) (inputs : List Input) (fs last : Fs)
    → Answers inputs
    → Handles handler last fs (messages inputs)
    → consume handler false inputs fs
      ≡ record { committed = messages inputs; files = last; end = waiting }
unfolding consume commit_then
consume_all handler [] fs last a done = refl
consume_all handler (empty ∷ inputs) fs last a h = consume_all handler inputs fs last a h
consume_all handler (broken e ∷ inputs) fs last a h = absurd a
consume_all handler (got m answer ∷ inputs) fs last a (next {fs'} now h) =
    let fine : (process handler m fs).0 ≡ ok tt = ap (λ r. r.0) now in
    let moved : (process handler m fs).1 ≡ fs' = ap (λ r. r.1) now in
    rw (fine, consume, moved, a.0)
      (ap {A = Consumed} (λ c. record c { committed = m ∷ c.committed })
        (consume_all handler inputs fs' last a.1 h))

unknown_display :
    (p : Payload) (name : String)
    → p.name ≡ some name
    → str_eq name "heartbeat-1" ≡ false
    → payload_logs name ≡ none
    → payload_log_display p ≡ err key_error
unfolding payload_log_display
unknown_display p name is_name not_heartbeat unknown =
    rw (is_name, payload_log_display, not_heartbeat, unknown)

unknown_process :
    (handler : Payload → Io (Unit {0})) (partition : ℕ) (p : Payload) (fs : Fs) (name : String)
    → p.name ≡ some name
    → str_eq name "heartbeat-1" ≡ false
    → payload_logs name ≡ none
    → process handler (partition, p) fs ≡ (err key_error, fs)
unfolding process
unknown_process handler partition p fs name is_name not_heartbeat unknown =
    rw (unknown_display p name is_name not_heartbeat unknown) refl

-- A message with a name that the log lines do not know ends the loop with a `KeyError`, before
-- any handler sees it: it is not committed, and is met again after a restart.
unknown_message_ends :
    (handler : Payload → Io (Unit {0})) (onetime : Bool) (partition : ℕ) (p : Payload)
    (answer : Result (Unit {0})) (inputs : List Input) (fs : Fs) (name : String)
    → p.name ≡ some name
    → str_eq name "heartbeat-1" ≡ false
    → payload_logs name ≡ none
    → consume handler onetime (got (partition, p) answer ∷ inputs) fs
      ≡ record { committed = []; files = fs; end = raised key_error }
unfolding consume
unknown_message_ends handler onetime partition p answer inputs fs name is_name not_heartbeat
      unknown =
    let result = unknown_process handler partition p fs name is_name not_heartbeat unknown in
    let failed : (process handler (partition, p) fs).0 ≡ err key_error = ap (λ r. r.0) result in
    let same : (process handler (partition, p) fs).1 ≡ fs = ap (λ r. r.1) result in
    rw (failed, consume, same) refl

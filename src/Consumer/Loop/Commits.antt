-- ===== src/Consumer/Loop/Commits.antt =====
-- What the consumer has committed.
use version_control_tools_fx.Base.{ap, ◌≡◌, refl, Bool, true, false, List, [], ◌∷◌, ◌++◌, inl, inr}
use version_control_tools_fx.Base.Result.{Result, ok, err, Result-cases}
use version_control_tools_fx.Message.{Payload}
use version_control_tools_fx.Consumer.Files.{Fs}
use version_control_tools_fx.Consumer.Io.{Io}
use version_control_tools_fx.Consumer.Loop.{
  Message, Input, empty, broken, got, Consumed, process, with_message, commit_then, consume,
}

-- The messages that the polls deliver, in order.
abbrev pub messages : List Input → List Message
messages [] = []
messages (got m answer ∷ inputs) = m ∷ messages inputs
messages (empty ∷ inputs) = messages inputs
messages (broken e ∷ inputs) = messages inputs

-- The handler takes these messages one behind the other, each with success.
pub data Handles (handler : Payload → Io (Unit {0})) (last : Fs) : Fs → List Message → Type 0 where
  done : Handles handler last last []
  next :
      {fs fs' : Fs} {m : Message} {ms : List Message}
      → process handler m fs ≡ (ok tt, fs')
      → Handles handler last fs' ms
      → Handles handler last fs (m ∷ ms)

-- The committed messages are the first that were delivered, all handled with success in order.
pub record InOrder (handler : Payload → Io (Unit {0})) (inputs : List Input) (fs : Fs)
    (c : Consumed) : Type 0 where
  pub settled : Fs
  pub handled : Handles handler settled fs c.committed
  pub not_committed : List Message
  pub prefix : messages inputs ≡ c.committed ++ not_committed

module _ (handler : Payload → Io (Unit {0})) where
  InOrder-stopped :
      (inputs : List Input) (fs fs' : Fs) (c : Consumed)
      → c.committed ≡ []
      → InOrder handler inputs fs c
  InOrder-stopped inputs fs fs' c none_committed = record {
    settled = fs;
    handled = rw none_committed done;
    not_committed = messages inputs;
    prefix = rw none_committed refl;
  }

  InOrder-next :
      (inputs : List Input) (fs fs' : Fs) (m : Message) (answer : Result (Unit {0})) (c : Consumed)
      → process handler m fs ≡ (ok tt, fs')
      → InOrder handler inputs fs' c
      → InOrder handler (got m answer ∷ inputs) fs (with_message m c)
  InOrder-next inputs fs fs' m answer c handled_now k = record {
    settled = k.settled;
    handled = next handled_now k.handled;
    not_committed = k.not_committed;
    prefix = ap (λ ms. m ∷ ms) k.prefix;
  }

  commit_then-InOrder :
      (onetime : Bool) (inputs : List Input) (fs fs' : Fs) (m : Message)
      (answer : Result (Unit {0})) (rest : Consumed)
      → process handler m fs ≡ (ok tt, fs')
      → InOrder handler inputs fs' rest
      → InOrder handler (got m answer ∷ inputs) fs (commit_then onetime m answer fs' rest)
  unfolding commit_then
  commit_then-InOrder onetime inputs fs fs' m (err e) rest h k =
      InOrder-stopped (got m (err e) ∷ inputs) fs fs' _ refl
  commit_then-InOrder true inputs fs fs' m (ok u) rest h k =
      InOrder-next inputs fs fs' m (ok u) _ h (InOrder-stopped inputs fs' fs' _ refl)
  commit_then-InOrder false inputs fs fs' m (ok u) rest h k =
      InOrder-next inputs fs fs' m (ok u) rest h k

-- A message is committed only once it and all before it have been handled with success, whatever
-- the polls, the handler and the commits answer.
pub consume-InOrder :
    (handler : Payload → Io (Unit {0})) (onetime : Bool) (inputs : List Input) (fs : Fs)
    → InOrder handler inputs fs (consume handler onetime inputs fs)
unfolding consume
consume-InOrder handler onetime [] fs = InOrder-stopped handler [] fs fs _ refl
consume-InOrder handler true (empty ∷ inputs) fs =
    InOrder-stopped handler (empty ∷ inputs) fs fs _ refl
consume-InOrder handler false (empty ∷ inputs) fs =
    let k = consume-InOrder handler false inputs fs in
    record {
      settled = k.settled;
      handled = k.handled;
      not_committed = k.not_committed;
      prefix = k.prefix;
    }
consume-InOrder handler onetime (broken e ∷ inputs) fs =
    InOrder-stopped handler (broken e ∷ inputs) fs fs _ refl
consume-InOrder handler onetime (got m answer ∷ inputs) fs =
    elim (Result-cases (process handler m fs).0) [
      | inl (u, fine) ↦
          let fs' = (process handler m fs).1 in
          let handled_now : process handler m fs ≡ (ok tt, fs') = λ i. (fine i, fs') in
          rw (fine, consume)
            (commit_then-InOrder handler onetime inputs fs fs' m answer _ handled_now
              (consume-InOrder handler onetime inputs fs'))
      | inr (e, failed) ↦
          rw (failed, consume) (InOrder-stopped handler (got m answer ∷ inputs) fs fs _ refl)
    ]

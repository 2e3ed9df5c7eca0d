-- ===== src/Daemon/Stops.antt =====
-- How `run_in_loop` is left.
use version_control_tools_fx.Base.{
  ℕ, zero, suc, ◌+◌, ◌≤◌, ◌≡◌, ◌∙◌, ap, refl, Bool, true, false, ◌||◌, List, [], ◌∷◌, ◌++◌, Option,
  none, some, ◌⊎◌, inl, inr, length, leb, All, arith, Bool-cases, if◌then◌else◌,
}
use version_control_tools_fx.Daemon.{
  Signals, signal_exit, Exit, code, aborted, running, Iteration, deliver, settle, count_call, round,
  run_from, run_in_loop,
}

-- `alive` never comes back.
deliver-dead : (n : ℕ) (s : Signals) → s.alive ≡ false → (deliver n s).0.alive ≡ false
unfolding deliver
deliver-dead zero s h = h
deliver-dead (suc n) s h = ground (arith, deliver-dead n (signal_exit s).0)

pub run_from-dead :
    (onetime : Bool) (is : List Iteration) (s : Signals)
    → s.alive ≡ false
    → run_from onetime is s ≡ (0, code 0)
unfolding run_from
run_from-dead onetime [] s h = rw h
run_from-dead onetime (i ∷ is) s h = rw h

-- An iteration after which the loop is not to go on: a signal arrives, or `fn` clears `alive`.
abbrev pub Stopping : Iteration → Type 0
Stopping i = (1 ≤ i.signals) ⊎ (i.clears ≡ true)

deliver_stops : (n : ℕ) (s : Signals) → 1 ≤ n → (deliver n s).0.alive ≡ false
unfolding deliver
deliver_stops zero s h = absurd (omega arith)
deliver_stops (suc n) s h = ground (arith, deliver-dead n (signal_exit s).0)

settled_dead :
    (i : Iteration) (s : Signals) → Stopping i → (settle i (deliver i.signals s).0).alive ≡ false
settled_dead i s (inl h) = ground (arith, deliver_stops i.signals s h)
settled_dead i s (inr h) = rw h

run_from_stops :
    (onetime : Bool) (before : List Iteration) (i : Iteration) (behind : List Iteration)
    (s : Signals)
    → Stopping i
    → (run_from onetime (before ++ i ∷ behind) s).0 ≤ length before + 1
unfolding run_from
run_from_stops onetime [] i behind s h =
    ground
      (arith, run_from-dead onetime behind (settle i (deliver i.signals s).0) (settled_dead i s h))
run_from_stops onetime (j ∷ before) i behind s h =
    ground (arith, run_from_stops onetime before i behind (settle j (deliver j.signals s).0) h)

-- Nothing is called behind an iteration that meets a signal or clears `alive`.
run_in_loop_stops :
    (onetime : Bool) (before : List Iteration) (i : Iteration) (behind : List Iteration)
    → Stopping i
    → (run_in_loop onetime (before ++ i ∷ behind)).0 ≤ length before + 1
unfolding run_in_loop
run_in_loop_stops onetime before i behind h = run_from_stops onetime before i behind _ h

-- What a call of `fn` makes of the loop, where no call before it ended it: a second signal leaves the
-- process; else an exception ends the loop with code 1; else one call that was all, a signal or a
-- cleared `alive` ends it with code 0.
abbrev pub ending : Bool → Iteration → Option Exit
ending onetime i =
    if leb 2 i.signals
    then some aborted
    else if i.raises
    then some (code 1)
    else if onetime || leb 1 i.signals || i.clears
    then some (code 0)
    else none

-- The second signal leaves the process.
deliver_twice : (n : ℕ) → (deliver n (record { signal_count = 0; alive = true })).1 ≡ leb 2 n
unfolding deliver
deliver_twice zero = ground arith
deliver_twice (suc zero) = ground arith
deliver_twice (suc (suc n)) = ground arith

stops_after : (i : Iteration) → (leb 1 i.signals || i.clears) ≡ true → Stopping i
stops_after i h = ground arith

run_from_ended :
    (onetime : Bool) (i : Iteration) (is : List Iteration) (e : Exit)
    → ending onetime i ≡ some e
    → run_in_loop onetime (i ∷ is) ≡ (1, e)
unfolding run_in_loop run_from round
run_from_ended onetime i is e h = elim (Bool-cases (leb 1 i.signals || i.clears)) [
  | inl stops ↦
      let s' = settle i (deliver i.signals (record { signal_count = 0; alive = true })).0 in
      let dead : s'.alive ≡ false =
        settled_dead i (record { signal_count = 0; alive = true }) (stops_after i stops) in
      let last : run_from onetime is s' ≡ (0, code 0) = run_from-dead onetime is s' dead in
      ground (arith, h, deliver_twice i.signals, last)
  | inr calm ↦ ground (arith, h, calm, deliver_twice i.signals)
]

run_from_goes_on :
    (onetime : Bool) (i : Iteration) (is : List Iteration)
    → ending onetime i ≡ none
    → run_in_loop onetime (i ∷ is) ≡ count_call (run_in_loop onetime is)
unfolding run_in_loop run_from round deliver
run_from_goes_on onetime i is h = ground (arith, h, deliver_twice i.signals)

-- Where no call ends it, the loop has made all of them and goes on.
pub run_in_loop_goes_on :
    (onetime : Bool) (is : List Iteration)
    → All (λ j. ending onetime j ≡ none) is
    → run_in_loop onetime is ≡ (length is, running)
unfolding run_in_loop run_from
run_in_loop_goes_on onetime [] q = refl
run_in_loop_goes_on onetime (j ∷ is) q =
    run_from_goes_on onetime j is q.0
    ∙ ap count_call (run_in_loop_goes_on onetime is q.1)
    ∙ ap (λ n. (n, running)) (omega arith)

-- The loop ends with the first call that ends it, and in the way that this call says, whatever
-- signals and calls were to come behind it.
pub run_in_loop_ends :
    (onetime : Bool) (before : List Iteration) (i : Iteration) (behind : List Iteration) (e : Exit)
    → All (λ j. ending onetime j ≡ none) before
    → ending onetime i ≡ some e
    → run_in_loop onetime (before ++ i ∷ behind) ≡ (length before + 1, e)
run_in_loop_ends onetime [] i behind e q h = run_from_ended onetime i behind e h
run_in_loop_ends onetime (j ∷ before) i behind e q h =
    run_from_goes_on onetime j (before ++ i ∷ behind) q.0
    ∙ ap count_call (run_in_loop_ends onetime before i behind e q.1 h)
    ∙ ap (λ n. (n, e)) (omega arith)

-- One round calls `fn` once, and the later rounds only where it neither raises nor stops.
pub run_from-round :
    (onetime : Bool) (i : Iteration) (is : List Iteration) (s : Signals)
    → (run_from onetime (i ∷ is) s).0
      ≤ 1 + (run_from onetime is (settle i (deliver i.signals s).0)).0
unfolding run_from
run_from-round onetime i is s = ground arith

pub run_from_raises :
    (onetime : Bool) (i : Iteration) (is : List Iteration) (s : Signals)
    → i.raises ≡ true
    → (run_from onetime (i ∷ is) s).0 ≤ 1
unfolding run_from
run_from_raises onetime i is s h = ground arith

pub run_from_clears :
    (onetime : Bool) (i : Iteration) (is : List Iteration) (s : Signals)
    → i.clears ≡ true
    → (run_from onetime (i ∷ is) s).0 ≤ 1
run_from_clears onetime i is s h =
    let s' = settle i (deliver i.signals s).0 in
    let dead : (run_from onetime is s').0 ≡ 0 =
      ap (λ r. r.0) (run_from-dead onetime is s' (settled_dead i s (inr h))) in
    omega (arith, run_from-round onetime i is s)

pub run_from_nothing : (onetime : Bool) (s : Signals) → (run_from onetime [] s).0 ≡ 0
unfolding run_from
run_from_nothing onetime s = ground arith

-- ===== src/Aggregator/Run/Budget.antt =====
-- The aggregation as a whole: what copying may acknowledge, and how often the daemon runs.
use Prim.Native.Nat.{max}
use version_control_tools_fx.Base.{
  ℕ, ◌+◌, ◌-◌, ◌≤◌, ◌≡◌, Bool, true, false, not, List, [], ◌∷◌, some, Text, lookup, IsDict, All,
  All-map, refl, ◌⊎◌, Bool-cases, inl, inr, arith,
}
use version_control_tools_fx.Base.Result.{Error, Result-cases, ok}
use version_control_tools_fx.Daemon.{Iteration, Signals, deliver, settle, run_from, run_in_loop}
use version_control_tools_fx.Daemon.Stops.{
  run_from-round, run_from_raises, run_from_nothing, run_from_clears,
}
use version_control_tools_fx.Aggregator.Counts.{Client, AggregationCounts, get_aggregation_counts}
use version_control_tools_fx.Aggregator.Counts.Least.{HasOffset}
use version_control_tools_fx.Aggregator.Counts.Safety.{counts_pass_no_group}
use version_control_tools_fx.Aggregator.Copy.{
  Poll, copy_loop, returned, waiting, raised, End, Copying,
}
use version_control_tools_fx.Aggregator.Copy.Effects.{commits, commits-copy_loop}
use version_control_tools_fx.Aggregator.Run.{
  RunState, RunOutcome, run_aggregation, synchronize, read_consumer_groups, finish_run,
}

-- Where the counts have been computed, copying as many messages of an available partition as they
-- say acknowledges no message that some group has not consumed, however the copying goes. The
-- available offsets are a dict, with no partition twice.
pub copying_acks_consumed :
    (c : Client) (groups : List Text) (ack : Text) (p x n : ℕ) (alive : Bool) (polls : List Poll)
    {r : AggregationCounts}
    → IsDict c.available
    → get_aggregation_counts c groups ack ≡ ok r
    → lookup p c.available ≡ some x
    → lookup p r.unacked_partition_counts ≡ some n
    → (acked : ℕ) × HasOffset c ack p acked
      × All
          (λ g.
            (m : ℕ) × HasOffset c g p m × (acked + commits (copy_loop n alive polls).effects ≤ m))
          groups
copying_acks_consumed c groups ack p x n alive polls d h found count =
    let (acked, is_acked, _, bounded) = counts_pass_no_group c groups ack p x n d h found count in
    (
      acked,
      is_acked,
      All-map (λ g b. (b.0, b.1, omega (arith, b.2, commits-copy_loop n alive polls))) groups
          bounded,
    )

-- What one call of `_run_aggregation` meets.
pub record Meets : Type 0 where
  pub client : Client
  pub group_lines : List Text
  pub polls : ℕ → List Poll
  pub signals : ℕ

-- The calls as `run_in_loop` sees them, up to one that does not come back.
abbrev pub seen : End → ℕ → Bool → List Iteration → List Iteration
seen waiting signals clears rest = []
seen returned signals clears rest =
    record { signals = signals; clears = clears; raises = false } ∷ rest
seen (raised e) signals clears rest =
    record { signals = signals; clears = clears; raises = true } ∷ rest

unfoldable pub iterations : Text → List Meets → RunState → List Iteration
iterations ack [] s = []
iterations ack (x ∷ xs) s =
    let o = run_aggregation x.client x.group_lines ack x.polls s in
    seen o.end x.signals (not o.state.alive) (iterations ack xs o.state)

-- A call that comes back has used one poll, and the last one clears `alive`.
abbrev Used : RunState → RunOutcome → Type 0
Used s o = (o.state.max_polls ≡ s.max_polls - 1) × (s.max_polls ≤ 1 → o.state.alive ≡ false)

finish_run-Used : (s : RunState) (c : Copying) (count : ℕ) → Used s (finish_run s c count)
unfolding finish_run
finish_run-Used s c count = (refl, λ h. ground arith)

End-cases : (e : End) → (e ≡ returned) ⊎ ((e ≡ waiting) ⊎ ((x : Error) × (e ≡ raised x)))
End-cases returned = inl refl
End-cases waiting = inr (inl refl)
End-cases (raised x) = inr (inr (x, refl))

run_aggregation-Used :
    (x : Meets) (ack : Text) (s : RunState)
    → (run_aggregation x.client x.group_lines ack x.polls s).end ≡ returned
    → Used s (run_aggregation x.client x.group_lines ack x.polls s)
unfolding run_aggregation
run_aggregation-Used x ack s h =
    elim (Result-cases
      (synchronize x.client (read_consumer_groups x.group_lines) ack x.polls s.alive)) [
        | inl ((copying, count), e) ↦ elim (End-cases copying.end) [
          | inl back ↦ simp (e, run_aggregation, back) (finish_run-Used s copying count)
          | inr (inl stuck) ↦ cc (simp (e, run_aggregation, stuck) at h)
          | inr (inr (y, fails)) ↦ cc (simp (e, run_aggregation, fails) at h)
        ]
        | inr (y, e) ↦ cc (rw (e, run_aggregation) at h)
      ]

seen_bound :
    (e : End) (signals polls : ℕ) (s : RunState) (rest : List Iteration) (sig : Signals)
    → (e ≡ returned → (s.max_polls ≡ polls - 1) × (polls ≤ 1 → s.alive ≡ false))
    → ((later : Signals) → (run_from false rest later).0 ≤ max s.max_polls 1)
    → (run_from false (seen e signals (not s.alive) rest) sig).0 ≤ max polls 1
seen_bound waiting signals polls s rest sig used bound = omega (arith, run_from_nothing false sig)
seen_bound (raised x) signals polls s rest sig used bound =
    omega (arith, run_from_raises false _ rest sig refl)
seen_bound returned signals polls s rest sig used bound =
    let i : Iteration = record { signals = signals; clears = not s.alive; raises = false } in
    let (left, last) = used refl in
    elim (Bool-cases s.alive) [
      | inl still ↦
          let more : ¬ (polls ≤ 1) = λ h. cc (last h) in
          omega (arith, run_from-round false i rest sig, bound (settle i (deliver i.signals sig).0))
      | inr dead ↦ omega (arith, run_from_clears false i rest sig (rw dead refl))
    ]

iterations_bound :
    (ack : Text) (xs : List Meets) (s : RunState) (sig : Signals)
    → (run_from false (iterations ack xs s) sig).0 ≤ max s.max_polls 1
unfolding iterations
iterations_bound ack [] s sig = omega (arith, run_from_nothing false sig)
iterations_bound ack (x ∷ xs) s sig =
    let o = run_aggregation x.client x.group_lines ack x.polls s in
    seen_bound o.end x.signals s.max_polls o.state (iterations ack xs o.state) sig
      (run_aggregation-Used x ack s) (iterations_bound ack xs o.state)

-- The aggregator's loop calls `_run_aggregation` no more often than `max_polls` says, and once
-- where that is 0, whatever each call meets.
aggregation_budget :
    (ack : Text) (xs : List Meets) (max_polls : ℕ)
    → (run_in_loop false (iterations ack xs (record { max_polls = max_polls; alive = true }))).0
      ≤ max max_polls 1
unfolding run_in_loop
aggregation_budget ack xs max_polls = iterations_bound ack xs _ _

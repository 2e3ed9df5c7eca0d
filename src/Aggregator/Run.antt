-- ===== src/Aggregator/Run.antt =====
-- `copy_messages`, `synchronize_fully_consumed_messages` and `_run_aggregation` of aggregator.py.
pub mod Budget
use version_control_tools_fx.Base.{
  ℕ, zero, suc, ◌+◌, ◌-◌, Bool, true, false, not, List, [], ◌∷◌, ◌++◌, Text, leb, ◌==◌, strip,
  sorted_items, if◌then◌else◌,
}
use version_control_tools_fx.Base.Result.{Result, Error, ok, err}
use version_control_tools_fx.Aggregator.Counts.{
  Client, Offsets, AggregationCounts, get_aggregation_counts,
}
use version_control_tools_fx.Aggregator.Copy.{
  Poll, Effect, End, returned, waiting, raised, Copying, after, copy_loop,
}

-- `read_consumer_groups`, from the lines of the file
unfoldable pub read_consumer_groups : List Text → List Text
unfolding strip
read_consumer_groups [] = []
read_consumer_groups (line ∷ lines) =
    let rest = read_consumer_groups lines in
    elim (strip line) [ [] ↦ rest | c ∷ cs ↦ (c ∷ cs) ∷ rest ]

-- Behind the copying of one partition: the next partitions, if the loop has returned.
unfoldable pub go_on : Copying → (Bool → Copying) → Copying
go_on c next = elim c.end [ returned ↦ after c.effects (next c.alive) | _ ↦ c ]

-- The loop of `copy_messages` over `sorted(counts)`, each partition with its own polls.
unfoldable pub copy_messages : (ℕ → List Poll) → Offsets → Bool → Copying
unfolding go_on copy_loop
copy_messages polls [] alive = record { effects = []; left = 0; end = returned; alive = alive }
copy_messages polls ((partition, count) ∷ counts) alive =
    go_on (copy_loop count alive (polls partition)) (copy_messages polls counts)

abbrev pub sum_values : Offsets → ℕ
sum_values [] = 0
sum_values ((partition, count) ∷ counts) = count + sum_values counts

-- `synchronize_fully_consumed_messages`: the copying, and the number returned
unfoldable pub synchronize :
    Client → List Text → Text → (ℕ → List Poll) → Bool → Result (Copying × ℕ)
unfolding get_aggregation_counts copy_messages sorted_items
synchronize c groups ack_group polls alive = elim (get_aggregation_counts c groups ack_group) [
  | err e ↦ err e
  | ok r ↦ elim r.unacked_partition_counts [
    | [] ↦ ok (record { effects = []; left = 0; end = returned; alive = alive }, 0)
    | x ∷ xs ↦ ok (copy_messages polls (sorted_items (x ∷ xs)) alive, sum_values (x ∷ xs))
  ]
]

-- One call of `_run_aggregation`: what was copied, the polls left, `alive`, and whether it slept.
pub record RunState : Type 0 where
  pub max_polls : ℕ
  pub alive : Bool

pub record RunOutcome : Type 0 where
  pub effects : List Effect
  pub end : End
  pub state : RunState
  pub slept : Bool

-- The part behind the synchronization. The count of polls is only compared with 0, so a count
-- below 0 is the same as 0.
unfoldable pub finish_run : RunState → Copying → ℕ → RunOutcome
finish_run s c count =
    let polls = s.max_polls - 1 in
    let alive = if leb polls 0 then false else c.alive in
    record {
      effects = c.effects;
      end = returned;
      state = record { max_polls = polls; alive = alive };
      slept = if alive then count == 0 else false;
    }

abbrev stopped : RunState → List Effect → End → Bool → RunOutcome
stopped s effects end alive = record {
  effects = effects;
  end = end;
  state = record s { alive = alive };
  slept = false;
}

-- `_run_aggregation`, with the lines of the groups file
unfoldable pub run_aggregation : Client → List Text → Text → (ℕ → List Poll) → RunState → RunOutcome
unfolding read_consumer_groups synchronize finish_run
run_aggregation c group_lines ack_group polls s =
    elim (synchronize c (read_consumer_groups group_lines) ack_group polls s.alive) [
      | err e ↦ stopped s [] (raised e) s.alive
      | ok (copying, count) ↦ elim copying.end [
        | returned ↦ finish_run s copying count
        | waiting ↦ stopped s copying.effects waiting copying.alive
        | raised e ↦ stopped s copying.effects (raised e) copying.alive
      ]
    ]

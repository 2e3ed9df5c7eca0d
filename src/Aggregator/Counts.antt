-- ===== src/Aggregator/Counts.antt =====
-- `get_aggregation_counts` of aggregator.py, with `consumer_offsets` of util.py. The Kafka client
-- is what it answers: the available offsets, and the offsets of each consumer group.
pub mod Least
pub mod Safety
use version_control_tools_fx.Base.{
  ℕ, ◌-◌, List, [], ◌∷◌, Option, none, some, Text, lookup, find, assign, sorted_items, ltb,
  if◌then◌else◌,
}
use version_control_tools_fx.Base.Result.{Result, ok, err, key_error, value_error, require, ◌>>=◌}

-- partition to offset
abbrev pub Offsets : Type 0
Offsets = List (ℕ × ℕ)

-- What the client answers: `fetch_partition_offsets`, and a group's `consumer.offsets`.
pub record Client : Type 0 where
  pub available : Offsets
  pub group_offsets : Text → Offsets

pub record ConsumerOffsets : Type 0 where
  pub available : Offsets
  pub group : List (Text × Offsets)

-- The loop over the groups that fills `res["group"]`.
unfoldable pub fetch_groups : Client → List Text → List (Text × Offsets) → List (Text × Offsets)
unfolding assign
fetch_groups c [] res = res
fetch_groups c (g ∷ groups) res = fetch_groups c groups (assign g (c.group_offsets g) res)

-- `consumer_offsets`
unfoldable pub consumer_offsets : Client → List Text → ConsumerOffsets
unfolding fetch_groups
consumer_offsets c groups = record { available = c.available; group = fetch_groups c groups [] }

-- `offsets["group"][g][partition]`
unfoldable pub group_offset : ConsumerOffsets → Text → ℕ → Result ℕ
group_offset o g partition = do
  offsets ← require key_error (find g o.group)
  require key_error (lookup partition offsets)

-- `[offsets["group"][g][partition] for g in consumer_groups]`
unfoldable pub consumed_offsets : ConsumerOffsets → List Text → ℕ → Result (List ℕ)
unfolding group_offset
consumed_offsets o [] partition = ok []
consumed_offsets o (g ∷ groups) partition = do
  n ← group_offset o g partition
  rest ← consumed_offsets o groups partition
  ok (n ∷ rest)

unfoldable pub smaller : ℕ → List ℕ → ℕ
smaller n [] = n
smaller n (m ∷ ms) = smaller (if ltb m n then m else n) ms

-- `min(offsets)`, which raises for an empty list
unfoldable pub minimum : List ℕ → Result ℕ
unfolding smaller
minimum [] = err value_error
minimum (n ∷ ns) = ok (smaller n ns)

-- The loop over `offsets["available"]`.
unfoldable pub fully_consumed : ConsumerOffsets → List Text → Offsets → Result Offsets
unfolding consumed_offsets minimum
fully_consumed o groups [] = ok []
fully_consumed o groups ((partition, _) ∷ rest) = do
  consumed ← consumed_offsets o groups partition
  least ← minimum consumed
  later ← fully_consumed o groups rest
  ok ((partition, least) ∷ later)

-- The loop over the sorted fully consumed offsets.
unfoldable pub unacked : Offsets → Offsets → Result Offsets
unacked acked [] = ok []
unacked acked ((partition, consumed_offset) ∷ rest) = do
  acked_offset ← require key_error (lookup partition acked)
  later ← unacked acked rest
  ok (
      if ltb acked_offset consumed_offset
      then (partition, consumed_offset - acked_offset) ∷ later
      else later)

pub record AggregationCounts : Type 0 where
  pub fully_consumed_offsets : Offsets
  pub acked_offsets : Offsets
  pub unacked_partition_counts : Offsets

-- `get_aggregation_counts`
unfoldable pub get_aggregation_counts : Client → List Text → Text → Result AggregationCounts
unfolding consumer_offsets fully_consumed sorted_items unacked
get_aggregation_counts c consumer_groups ack_group = do
  let offsets = consumer_offsets c (ack_group ∷ consumer_groups)
  full ← fully_consumed offsets consumer_groups offsets.available
  acked ← require key_error (find ack_group offsets.group)
  counts ← unacked acked (sorted_items full)
  ok (record {
    fully_consumed_offsets = full;
    acked_offsets = acked;
    unacked_partition_counts = counts;
  })

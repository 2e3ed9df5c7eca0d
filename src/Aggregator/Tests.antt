-- ===== src/Aggregator/Tests.antt =====
-- The aggregator on two groups and two partitions.
use version_control_tools_fx.Base.{
  ℕ, ◌+◌, ◌≤◌, ◌<◌, find, ◌≡◌, refl, true, false, List, [], ◌∷◌, some, Text, codes, text_eq, All,
  arith, lookup, if◌then◌else◌,
}
use version_control_tools_fx.Base.Result.{ok}
use version_control_tools_fx.Message.{empty}
use version_control_tools_fx.Message.Produce.{send_message}
use version_control_tools_fx.Message.Display.{payload_log_display}
use version_control_tools_fx.Aggregator.Counts.{
  Client, AggregationCounts, get_aggregation_counts, group_offset,
}
use version_control_tools_fx.Aggregator.Counts.Least.{HasOffset}
use version_control_tools_fx.Aggregator.Counts.Safety.{
  Released, get_aggregation_counts-Released, counts_pass_no_group,
}
use version_control_tools_fx.Aggregator.Copy.{
  Received, Delivery, nothing, got, Poll, returned, copy_one, copy_loop, send_copy, commit_copy,
}
use version_control_tools_fx.Aggregator.Copy.Effects.{Copied, copy_loop-Copied, commits}
use version_control_tools_fx.Aggregator.Copy.Progress.{copy_loop_returns}
use version_control_tools_fx.Aggregator.Run.Budget.{copying_acks_consumed, Meets}

abbrev groups : List Text
groups = codes "main" ∷ codes "heads" ∷ []

abbrev ack : Text
ack = codes "ack"

abbrev client : Client
client = record {
  available = (1, 9) ∷ (0, 10) ∷ [];
  group_offsets = λ g.
      if text_eq g ack
      then (0, 2) ∷ (1, 5) ∷ []
      else if text_eq g (codes "main")
      then (0, 7) ∷ (1, 5) ∷ []
      else (0, 4) ∷ (1, 6) ∷ [];
}

abbrev counts : AggregationCounts
counts = record {
  fully_consumed_offsets = (1, 5) ∷ (0, 4) ∷ [];
  acked_offsets = (0, 2) ∷ (1, 5) ∷ [];
  unacked_partition_counts = (0, 2) ∷ [];
}

abbrev heartbeat : Received
heartbeat = record {
  partition = 0;
  payload = record empty { name = some "heartbeat-1"; created = some 3 };
}

abbrev taken : Delivery
taken = record { now = 8; first = false; second = true; committed = true }

abbrev lost : Delivery
lost = record taken { second = false }

abbrev polls : List Poll
polls = (got heartbeat taken, true) ∷ (nothing, true) ∷ (got heartbeat taken, true) ∷ []

abbrev interrupted : List Poll
interrupted = (got heartbeat taken, true) ∷ (got heartbeat lost, true) ∷ []

counted : get_aggregation_counts client groups ack ≡ ok counts
unfolding get_aggregation_counts text_eq lookup group_offset find
counted = refl

-- A run with a failure in it: the first message is committed, the second is not.
interrupted-commits : commits (copy_loop 2 true interrupted).effects ≡ 1
unfolding copy_loop copy_one send_message payload_log_display send_copy commit_copy
interrupted-commits = refl

copying_acks_consumed_example :
    (acked : ℕ) × HasOffset client ack 0 acked
    × All
        (λ g.
          (m : ℕ) × HasOffset client g 0 m
          × (acked + commits (copy_loop 2 true interrupted).effects ≤ m))
        groups
unfolding lookup
copying_acks_consumed_example =
    copying_acks_consumed client groups ack 0 10 2 true interrupted (refl, (refl, tt)) counted refl
      refl

copy_loop-Copied_example : Copied 2 interrupted (copy_loop 2 true interrupted)
copy_loop-Copied_example = copy_loop-Copied 2 true interrupted

distance_example : Released client groups ack 0 counts.unacked_partition_counts
unfolding lookup
distance_example =
    get_aggregation_counts-Released client groups ack 0 10 (refl, (refl, tt)) counted refl

counts_pass_no_group_example :
    (acked : ℕ) × HasOffset client ack 0 acked
    × (0 < 2)
    × All (λ g. (m : ℕ) × HasOffset client g 0 m × (acked + 2 ≤ m)) groups
unfolding lookup
counts_pass_no_group_example =
    counts_pass_no_group client groups ack 0 10 2 (refl, (refl, tt)) counted refl refl

copies_through : (copy_one heartbeat taken).1 ≡ ok tt
unfolding copy_one send_message payload_log_display send_copy commit_copy
copies_through = refl

copy_loop_returns_example :
    ((copy_loop 2 true polls).end ≡ returned) × ((copy_loop 2 true polls).left ≡ 0)
copy_loop_returns_example =
    copy_loop_returns 2 polls ((refl, copies_through, (refl, (refl, copies_through, tt))))
      (omega arith)

abbrev meets : Meets
meets = record { client = client; group_lines = groups; polls = λ p. polls; signals = 0 }

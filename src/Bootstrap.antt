-- ===== src/Bootstrap.antt =====
-- pylib/vcsreplicator/vcsreplicator/bootstrap.py: how a new mirror gets its repositories. `hgssh`
-- runs on the master and tells between which offsets the messages of the bootstrap stand; `hgweb`
-- runs on the mirror, reads these messages (here) and works them off (Schedule, Finish). Threads
-- are an order of completion.
pub mod Schedule
pub mod Finish
pub mod View
pub mod Own
pub mod Kept
pub mod Dropped
pub mod Reading
pub mod Tests
use version_control_tools_fx.Base.{
  ℕ, suc, Bool, true, false, List, [], ◌∷◌, ◌++◌, map, Option, none, some, Text, ltb, leb, ◌==◌,
  sorted_items, sorted_texts, if◌then◌else◌,
}
use version_control_tools_fx.Base.Result.{Result, Error, ok, err, shutdown, other_error, ◌>>=◌}
use version_control_tools_fx.Message.{Payload}

-- The offsets of a partition: where the bootstrap begins, and behind its last message.
abbrev pub Range : Type 0
Range = ℕ × ℕ

-- What `hgssh` prints.
pub record Handover : Type 0 where
  pub offsets : List (ℕ × Range)
  pub repositories : List Text

-- The `replicatesync` of a repository fails.
unfoldable pub first_failure : List (Text × Option Error) → Option Error
first_failure [] = none
first_failure ((repo, none) ∷ rest) = first_failure rest
first_failure ((repo, some e) ∷ rest) = some e

-- `hgssh`: the partitions of the topic, if Kafka knows it, their end offsets before and after, and
-- the outcome of each repository's `replicatesync` in the order of completion. Without partitions
-- it exits.
unfoldable pub hgssh :
    Option (List ℕ)
    → (ℕ → ℕ)
    → (ℕ → ℕ)
    → (Text → Text)
    → List (Text × Option Error)
    → Result Handover
unfolding first_failure sorted_texts
hgssh none start end rewrite outcomes = err shutdown
hgssh (some []) start end rewrite outcomes = err shutdown
hgssh (some (p ∷ ps)) start end rewrite outcomes = elim (first_failure outcomes) [
  | some e ↦ err other_error
  | none ↦ ok (record {
    offsets = map (λ k. (k, (start k, end k))) (p ∷ ps);
    repositories = sorted_texts (map (λ o. rewrite o.0) outcomes);
  })
]

-- A message of Kafka.
pub record Message : Type 0 where
  pub offset : ℕ
  pub value : Payload

-- What reading a partition gives: the messages that are kept, the offsets that are committed, and
-- whether the loop is left; where it is not, it waits for messages.
pub record Collected : Type 0 where
  pub messages : List Message
  pub commits : List ℕ
  pub done : Bool

abbrev pub kept : ℕ → Message → List Message → List Message
kept end m ms = if ltb m.offset end then m ∷ ms else ms

-- The loop over a partition; the source has `end_offset - 1` for the last offset.
unfoldable pub collect_from : ℕ → List Message → Collected
collect_from end [] = record { messages = []; commits = []; done = false }
collect_from end (m ∷ ms) =
    let more = collect_from end ms in
    if leb end (suc m.offset)
    then record { messages = kept end m []; commits = suc m.offset ∷ []; done = true }
    else record {
      messages = kept end m more.messages;
      commits = suc m.offset ∷ more.commits;
      done = more.done;
    }

-- One partition behind the other, each from its first offset on. What stands between is nothing
-- where the offsets are equal. The answer is none where a partition is waited for.
unfoldable pub collect_all : (ℕ → ℕ → List Message) → List (ℕ × Range) → Option (List Message)
unfolding collect_from
collect_all delivered [] = some []
collect_all delivered ((p, (start, end)) ∷ rest) =
    let here = collect_from end (delivered p start) in
    let more = collect_all delivered rest in
    if start == end
    then more
    else if here.done
    then elim more [ none ↦ none | some ms ↦ some (here.messages ++ ms) ]
    else none

-- The messages that `hgweb` works off.
unfoldable pub collect : (ℕ → ℕ → List Message) → Handover → Option (List Message)
unfolding collect_all sorted_items
collect delivered h = collect_all delivered (sorted_items h.offsets)

-- ===== src/Aggregator/Counts/Safety.antt =====
-- What `get_aggregation_counts` guarantees of the messages that are copied.
use mathlib.Core.Path.{subst}
use version_control_tools_fx.Base.{
  All-map, ◌∙◌, ℕ, ◌+◌, ◌≤◌, ◌<◌, ◌≡◌, inl, inr, refl, List, [], ◌∷◌, none, some, Text, lookup,
  find, lookup-sorted_items, sorted_items, ltb, ◌==◌, IsDict, sorted_items-IsDict, ◌-◌, All,
  Bool-cases, arith, if◌then◌else◌,
}
use version_control_tools_fx.Base.Result.{ok, key_error, require, require-eq-ok, >>=-eq-ok}
use version_control_tools_fx.Aggregator.Counts.{
  Client, Offsets, ConsumerOffsets, consumer_offsets, consumed_offsets, minimum, fully_consumed,
  unacked, AggregationCounts, get_aggregation_counts,
}
use version_control_tools_fx.Aggregator.Counts.Least.{
  HasOffset, NoneBehind, SomeAt, fetched_offsets, consumed_offsets-Consumed, minimum-least,
}

fully_consumed-least :
    (c : Client) (fetched groups : List Text) (avail : Offsets) (p x : ℕ) {full : Offsets}
    → fully_consumed (consumer_offsets c fetched) groups avail ≡ ok full
    → lookup p avail ≡ some x
    → (least : ℕ) × (lookup p full ≡ some least)
      × NoneBehind c p groups least
      × SomeAt c p groups least
unfolding fully_consumed lookup
fully_consumed-least c fetched groups [] p x h found = cc
fully_consumed-least c fetched groups ((j, y) ∷ rest) p x {full} h found =
    let o = consumer_offsets c fetched in
    let (ns, hns, h1) = >>=-eq-ok (consumed_offsets o groups j) _ h in
    let (least, hmin, h2) = >>=-eq-ok (minimum ns) _ h1 in
    let (later, hl, h3) = >>=-eq-ok (fully_consumed o groups rest) _ h2 in
    let is_full : (j, least) ∷ later ≡ full = cc in
    elim (Bool-cases (j == p)) [
      | inl same ↦
          let e : j ≡ p = ground arith in
          let bounds =
            minimum-least c j groups ns (consumed_offsets-Consumed c fetched groups j hns) hmin in
          (least, rw (← is_full, same) refl, rw e at bounds.0, rw e at bounds.1)
      | inr other ↦
          let (l, look, b, s) =
            fully_consumed-least c fetched groups rest p x hl (rw other at found) in
          (l, rw (← is_full, other) look, b, s)
    ]

fully_consumed-none :
    (o : ConsumerOffsets) (groups : List Text) (avail : Offsets) (p : ℕ) {full : Offsets}
    → fully_consumed o groups avail ≡ ok full
    → lookup p avail ≡ none
    → lookup p full ≡ none
unfolding fully_consumed lookup
fully_consumed-none o groups [] p h miss = ground arith
fully_consumed-none o groups ((j, y) ∷ rest) p h miss =
    let (ns, hns, h1) = >>=-eq-ok (consumed_offsets o groups j) _ h in
    let (least, hmin, h2) = >>=-eq-ok (minimum ns) _ h1 in
    let (later, hl, h3) = >>=-eq-ok (fully_consumed o groups rest) _ h2 in
    ground (arith, fully_consumed-none o groups rest p hl)

fully_consumed-IsDict :
    (c : Client) (fetched groups : List Text) (avail : Offsets) {full : Offsets}
    → IsDict avail
    → fully_consumed (consumer_offsets c fetched) groups avail ≡ ok full
    → IsDict full
unfolding fully_consumed
fully_consumed-IsDict c fetched groups [] {full} d h = let e : [] ≡ full = cc in subst IsDict e tt
fully_consumed-IsDict c fetched groups ((j, y) ∷ rest) {full} d h =
    let o = consumer_offsets c fetched in
    let (ns, hns, h1) = >>=-eq-ok (consumed_offsets o groups j) _ h in
    let (least, hmin, h2) = >>=-eq-ok (minimum ns) _ h1 in
    let (later, hl, h3) = >>=-eq-ok (fully_consumed o groups rest) _ h2 in
    let e : (j, least) ∷ later ≡ full = cc in
    subst IsDict e (
      fully_consumed-none o groups rest j hl d.0,
      fully_consumed-IsDict c fetched groups rest d.1 hl,
    )

unacked-none :
    (acked full : Offsets) (p : ℕ) {counts : Offsets}
    → unacked acked full ≡ ok counts
    → lookup p full ≡ none
    → lookup p counts ≡ none
unfolding unacked lookup
unacked-none acked [] p h miss = ground arith
unacked-none acked ((j, n) ∷ rest) p h miss =
    let (a, ha, h1) = >>=-eq-ok (require key_error (lookup j acked)) _ h in
    let (later, hl, h2) = >>=-eq-ok (unacked acked rest) _ h1 in
    ground (arith, unacked-none acked rest p hl)

unacked-count :
    (acked full : Offsets) (p least : ℕ) {counts : Offsets}
    → IsDict full
    → unacked acked full ≡ ok counts
    → lookup p full ≡ some least
    → (a : ℕ) × (lookup p acked ≡ some a)
      × (lookup p counts ≡ (if ltb a least then some (least - a) else none))
unfolding unacked lookup
unacked-count acked [] p least d h found = cc
unacked-count acked ((j, n) ∷ rest) p least d h found =
    let (a, ha, h1) = >>=-eq-ok (require key_error (lookup j acked)) _ h in
    let (later, hl, h2) = >>=-eq-ok (unacked acked rest) _ h1 in
    elim (Bool-cases (j == p)) [
      | inl same ↦
          let e : j ≡ p = ground arith in
          (
            a,
            rw e at (require-eq-ok key_error (lookup j acked) ha),
            ground (arith, unacked-none acked rest p hl (rw e at d.0)),
          )
      | inr other ↦
          let (b, hb, hc) = unacked-count acked rest p least d.1 hl (rw other at found) in
          (b, hb, ground arith)
    ]

unacked_of_get :
    (c : Client) (groups : List Text) (ack : Text) {r : AggregationCounts}
    → get_aggregation_counts c groups ack ≡ ok r
    → (fully_consumed (consumer_offsets c (ack ∷ groups)) groups c.available
        ≡ ok r.fully_consumed_offsets)
      × (unacked (c.group_offsets ack) (sorted_items r.fully_consumed_offsets)
          ≡ ok r.unacked_partition_counts)
unfolding get_aggregation_counts
unacked_of_get c groups ack {r} h =
    let o = consumer_offsets c (ack ∷ groups) in
    let (full, hf, h1) = >>=-eq-ok (fully_consumed o groups o.available) _ h in
    let (acked, ha, h2) = >>=-eq-ok (require key_error (find ack o.group)) _ h1 in
    let (counts, hc, h3) = >>=-eq-ok (unacked acked (sorted_items full)) _ h2 in
    let is_client's =
      fetched_offsets c (ack ∷ groups) ack (require-eq-ok key_error (find ack o.group) ha) in
    let is_full : full ≡ r.fully_consumed_offsets = cc in
    let is_counts : counts ≡ r.unacked_partition_counts = cc in
    (cc, rw (← is_full, ← is_counts, ← is_client's) hc)

-- How many messages of a partition the counts release for copying, if any.
pub record Released (c : Client) (groups : List Text) (ack : Text) (p : ℕ) (counts : Offsets)
    : Type 0 where
  pub least : ℕ
  pub acked : ℕ
  pub acked_is : HasOffset c ack p acked
  pub none_behind : NoneBehind c p groups least
  pub some_at : SomeAt c p groups least
  pub count_is : lookup p counts ≡ (if ltb acked least then some (least - acked) else none)

-- For each available partition the count is the distance from the acknowledged offset to the
-- least offset of the groups, where that is ahead, and else the partition is left out.
pub get_aggregation_counts-Released :
    (c : Client) (groups : List Text) (ack : Text) (p x : ℕ) {r : AggregationCounts}
    → IsDict c.available
    → get_aggregation_counts c groups ack ≡ ok r
    → lookup p c.available ≡ some x
    → Released c groups ack p r.unacked_partition_counts
get_aggregation_counts-Released c groups ack p x {r} d h found =
    let (full, counts) = unacked_of_get c groups ack h in
    let (least, look, behind, at) =
      fully_consumed-least c (ack ∷ groups) groups c.available p x full found in
    let sorted = lookup-sorted_items p r.fully_consumed_offsets ∙ look in
    let (a, ha, hc) =
      unacked-count (c.group_offsets ack) (sorted_items r.fully_consumed_offsets) p least
        (sorted_items-IsDict r.fully_consumed_offsets
          (fully_consumed-IsDict c (ack ∷ groups) groups c.available d full))
        counts sorted in
    record {
      least = least;
      acked = a;
      acked_is = ha;
      none_behind = behind;
      some_at = at;
      count_is = hc;
    }

-- Copying the counted messages passes no group: behind the acknowledged offset there are at least
-- that many messages that each group has consumed.
pub counts_pass_no_group :
    (c : Client) (groups : List Text) (ack : Text) (p x n : ℕ) {r : AggregationCounts}
    → IsDict c.available
    → get_aggregation_counts c groups ack ≡ ok r
    → lookup p c.available ≡ some x
    → lookup p r.unacked_partition_counts ≡ some n
    → (acked : ℕ) × HasOffset c ack p acked
      × (0 < n)
      × All (λ g. (m : ℕ) × HasOffset c g p m × (acked + n ≤ m)) groups
counts_pass_no_group c groups ack p x n {r} d h found count =
    let rel = get_aggregation_counts-Released c groups ack p x d h found in
    let sum : (rel.acked + n ≡ rel.least) × (0 < n) = ground (arith, rel.count_is) in
    (
      rel.acked,
      rel.acked_is,
      sum.1,
      All-map (λ g b. (b.0, b.1, omega (arith, b.2))) groups rel.none_behind,
    )

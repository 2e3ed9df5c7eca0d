-- ===== src/Aggregator/Counts/Least.antt =====
-- The offsets that are fetched, and the least of them.
use mathlib.Core.Path.{subst}
use version_control_tools_fx.Base.{
  ℕ, ◌≤◌, ◌≡◌, ◌⊎◌, inl, inr, refl, List, [], ◌∷◌, some, Text, lookup, find, assign, find-assign,
  text_eq_iff, ltb, All, Bool-cases, arith, if◌then◌else◌,
}
use version_control_tools_fx.Base.Result.{ok, key_error, require, require-eq-ok, >>=-eq-ok}
use version_control_tools_fx.Aggregator.Counts.{
  Client, Offsets, fetch_groups, consumer_offsets, group_offset, consumed_offsets, smaller, minimum,
}

-- `n` is the offset of the group `g` in the partition.
abbrev pub HasOffset : Client → Text → ℕ → ℕ → Type 0
HasOffset c g partition n = lookup partition (c.group_offsets g) ≡ some n

-- Every fetched group has the client's offsets.
fetch_groups-find :
    (c : Client) (groups : List Text) (res : List (Text × Offsets)) (g : Text) {o : Offsets}
    → find g (fetch_groups c groups res) ≡ some o
    → (find g res ≡ some o) ⊎ (o ≡ c.group_offsets g)
unfolding fetch_groups
fetch_groups-find c [] res g h = inl h
fetch_groups-find c (k ∷ groups) res g {o} h =
    elim (fetch_groups-find c groups (assign k (c.group_offsets k) res) g h) [
      | inl old ↦ ground (arith, find-assign k g (c.group_offsets k) res, text_eq_iff k g)
      | inr new ↦ inr new
    ]

pub fetched_offsets :
    (c : Client) (groups : List Text) (g : Text) {o : Offsets}
    → find g (consumer_offsets c groups).group ≡ some o
    → o ≡ c.group_offsets g
unfolding consumer_offsets find
fetched_offsets c groups g h = elim (fetch_groups-find c groups [] g h) [
  | inl old ↦ cc
  | inr new ↦ new
]

-- The list holds the offset of each group, in order.
abbrev pub Consumed : Client → ℕ → List Text → List ℕ → Type 0
Consumed c partition [] [] = Unit
Consumed c partition (g ∷ groups) (n ∷ ns) =
    HasOffset c g partition n × Consumed c partition groups ns
Consumed c partition _ _ = ⊥

group_offset-HasOffset :
    (c : Client) (fetched : List Text) (g : Text) (partition : ℕ) {n : ℕ}
    → group_offset (consumer_offsets c fetched) g partition ≡ ok n
    → HasOffset c g partition n
unfolding group_offset
group_offset-HasOffset c fetched g partition h =
    let group = (consumer_offsets c fetched).group in
    let (o, ho, found) = >>=-eq-ok (require key_error (find g group)) _ h in
    let is_client's = fetched_offsets c fetched g (require-eq-ok key_error (find g group) ho) in
    rw is_client's at (require-eq-ok key_error (lookup partition o) found)

pub consumed_offsets-Consumed :
    (c : Client) (fetched groups : List Text) (partition : ℕ) {ns : List ℕ}
    → consumed_offsets (consumer_offsets c fetched) groups partition ≡ ok ns
    → Consumed c partition groups ns
unfolding consumed_offsets
consumed_offsets-Consumed c fetched [] partition {ns} h =
    let e : [] ≡ ns = cc in subst (Consumed c partition []) e tt
consumed_offsets-Consumed c fetched (g ∷ groups) partition {ns} h =
    let o = consumer_offsets c fetched in
    let (n, hn, rest) = >>=-eq-ok (group_offset o g partition) _ h in
    let (ms, hm, last) = >>=-eq-ok (consumed_offsets o groups partition) _ rest in
    let e : n ∷ ms ≡ ns = cc in
    subst (Consumed c partition (g ∷ groups)) e (
      group_offset-HasOffset c fetched g partition hn,
      consumed_offsets-Consumed c fetched groups partition hm,
    )

-- The least offset bounds each, and is one of them.
smaller-le : (n : ℕ) (ms : List ℕ) → (smaller n ms ≤ n) × All (λ m. smaller n ms ≤ m) ms
unfolding smaller
smaller-le n [] = (omega arith, tt)
smaller-le n (m ∷ ms) =
    let (a, b) = smaller-le (if ltb m n then m else n) ms in (ground arith, (ground arith, b))

-- What `min` of the groups' offsets is: no group is behind it, and some group is at it.
abbrev pub NoneBehind : Client → ℕ → List Text → ℕ → Type 0
NoneBehind c partition groups least =
    All (λ g. (n : ℕ) × HasOffset c g partition n × (least ≤ n)) groups

abbrev pub SomeAt : Client → ℕ → List Text → ℕ → Type 0
SomeAt c partition [] least = ⊥
SomeAt c partition (g ∷ groups) least =
    HasOffset c g partition least ⊎ SomeAt c partition groups least

bounded-NoneBehind :
    (c : Client) (partition : ℕ) (groups : List Text) (ns : List ℕ) (least : ℕ)
    → Consumed c partition groups ns
    → All (λ m. least ≤ m) ns
    → NoneBehind c partition groups least
bounded-NoneBehind c partition [] [] least h b = tt
bounded-NoneBehind c partition [] (n ∷ ns) least h b = tt
bounded-NoneBehind c partition (g ∷ groups) [] least h b = absurd h
bounded-NoneBehind c partition (g ∷ groups) (n ∷ ns) least h b =
    ((n, h.0, b.0), bounded-NoneBehind c partition groups ns least h.1 b.1)

-- The least is the first offset, or stands further on.
smaller-SomeAt :
    (c : Client) (partition : ℕ) (groups : List Text) (n : ℕ) (ns : List ℕ)
    → Consumed c partition groups ns
    → (smaller n ns ≡ n) ⊎ SomeAt c partition groups (smaller n ns)
unfolding smaller
smaller-SomeAt c partition [] n [] h = inl refl
smaller-SomeAt c partition (g ∷ groups) n [] h = absurd h
smaller-SomeAt c partition [] n (m ∷ ms) h = absurd h
smaller-SomeAt c partition (g ∷ groups) n (m ∷ ms) h = elim (Bool-cases (ltb m n)) [
  | inl less ↦ rw less (elim (smaller-SomeAt c partition groups m ms h.1) [
    | inl e ↦ inr (inl (rw e h.0))
    | inr s ↦ inr (inr s)
  ])
  | inr not_less ↦
      rw not_less
        (elim (smaller-SomeAt c partition groups n ms h.1) [ inl e ↦ inl e | inr s ↦ inr (inr s) ])
]

pub minimum-least :
    (c : Client) (partition : ℕ) (groups : List Text) (ns : List ℕ) {least : ℕ}
    → Consumed c partition groups ns
    → minimum ns ≡ ok least
    → NoneBehind c partition groups least × SomeAt c partition groups least
unfolding minimum
minimum-least c partition groups [] h e = cc
minimum-least c partition [] (n ∷ ns) h e = absurd h
minimum-least c partition (g ∷ groups) (n ∷ ns) {least} h e =
    let (a, b) = smaller-le n ns in
    let is_least : smaller n ns ≡ least = cc in
    subst (λ l. NoneBehind c partition (g ∷ groups) l × SomeAt c partition (g ∷ groups) l) is_least
      (
        bounded-NoneBehind c partition (g ∷ groups) (n ∷ ns) (smaller n ns) h (a, b),
        elim (smaller-SomeAt c partition groups n ns h.1) [
          | inl first ↦ inl (rw first h.0)
          | inr s ↦ inr s
        ],
      )

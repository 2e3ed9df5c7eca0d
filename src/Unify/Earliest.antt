-- ===== src/Unify/Earliest.antt =====
-- The push that a node keeps is its first one.
use version_control_tools_fx.Base.{
  ℕ, ◌≤◌, ◌<◌, ◌≡◌, refl, sym, ap, ◌∙◌, true, List, [], ◌∷◌, ◌++◌, map, Option, none, some, Text,
  text_eq, text_eq_iff, find, find-assign, ltb, if◌then◌else◌, ◌⊎◌, inl, inr, arith, Bool-cases,
  Option-cases, All,
}
use version_control_tools_fx.Base.Result.{ok, attribute_error, require, >>=-eq-ok, require-eq-ok}
use version_control_tools_fx.Hooks.Roots.{member, difference, is_empty}
use version_control_tools_fx.Pushlog.Record.{Push}
use version_control_tools_fx.Unify.Collect.{
  Sources, Info, PushInfo, position, take_earlier, collect_nodes, collect_pushes, collect, allnodes,
  collected,
}

-- The nodes of a push that the repository has, with the push.
unfoldable pub arrivals_of : Text → List Text → Push → List Text → PushInfo
arrivals_of path known p [] = []
arrivals_of path known p (n ∷ ns) = elim (position n known) [
  | none ↦ arrivals_of path known p ns
  | some rev ↦
      (n, record { when = p.when; source = path; rev = rev; who = p.user; pushid = p.pushid })
      ∷ arrivals_of path known p ns
]

unfoldable pub arrivals_in : Text → List Text → List Push → PushInfo
unfolding arrivals_of
arrivals_in path known [] = []
arrivals_in path known (p ∷ ps) = arrivals_of path known p p.nodes ++ arrivals_in path known ps

abbrev pushes_or_none : Option (List Push) → List Push
pushes_or_none none = []
pushes_or_none (some ps) = ps

-- All that the pushlogs of the sources say, in the order of the sources.
unfoldable pub arrivals : Sources → PushInfo
unfolding arrivals_in
arrivals [] = []
arrivals ((s, repo) ∷ rest) =
    arrivals_in s.path repo.nodes (pushes_or_none repo.pushlog) ++ arrivals rest

-- The entries in turn.
unfoldable take_all : PushInfo → PushInfo → PushInfo
unfolding take_earlier
take_all [] m = m
take_all ((n, i) ∷ es) m = take_all es (take_earlier n i m)

take_all-append : (es fs m : PushInfo) → take_all (es ++ fs) m ≡ take_all fs (take_all es m)
unfolding take_all
take_all-append [] fs m = refl
take_all-append ((n, i) ∷ es) fs m = take_all-append es fs (take_earlier n i m)

collect_nodes-take_all :
    (path : Text) (known : List Text) (p : Push) (ns : List Text) (m : PushInfo)
    → collect_nodes path known p ns m ≡ take_all (arrivals_of path known p ns) m
unfolding collect_nodes arrivals_of take_all
collect_nodes-take_all path known p [] m = refl
collect_nodes-take_all path known p (n ∷ ns) m = elim (Option-cases (position n known)) [
  | inl unknown ↦
      rw (collect_nodes, arrivals_of, unknown) (collect_nodes-take_all path known p ns m)
  | inr (rev, e) ↦ rw (collect_nodes, arrivals_of, e) (collect_nodes-take_all path known p ns _)
]

collect_pushes-take_all :
    (path : Text) (known : List Text) (ps : List Push) (m : PushInfo)
    → collect_pushes path known ps m ≡ take_all (arrivals_in path known ps) m
unfolding collect_pushes arrivals_in take_all
collect_pushes-take_all path known [] m = refl
collect_pushes-take_all path known (p ∷ ps) m =
    collect_pushes-take_all path known ps _
    ∙ ap (take_all (arrivals_in path known ps)) (collect_nodes-take_all path known p p.nodes m)
    ∙ sym (take_all-append (arrivals_of path known p p.nodes) (arrivals_in path known ps) m)

collect-take_all :
    (srcs : Sources) (m : PushInfo) {m' : PushInfo}
    → collect srcs m ≡ ok m'
    → m' ≡ take_all (arrivals srcs) m
unfolding collect arrivals take_all
collect-take_all [] m h = cc
collect-take_all ((s, repo) ∷ rest) m h =
    let (ps, e, h') = >>=-eq-ok (require attribute_error repo.pushlog) _ h in
    let there : repo.pushlog ≡ some ps = require-eq-ok attribute_error repo.pushlog e in
    let here : arrivals_in s.path repo.nodes (pushes_or_none repo.pushlog)
        ≡ arrivals_in s.path repo.nodes ps =
      ap (λ o. arrivals_in s.path repo.nodes (pushes_or_none o)) there in
    collect-take_all rest _ h'
    ∙ ap (take_all (arrivals rest))
        (collect_pushes-take_all s.path repo.nodes ps m ∙ ap (λ es. take_all es m) (sym here))
    ∙ sym (
        take_all-append (arrivals_in s.path repo.nodes (pushes_or_none repo.pushlog))
          (arrivals rest) m)

-- What becomes of the entry of one node.
abbrev better : Info → Option Info → Option Info
better i none = some i
better i (some c) = if ltb i.when c.when then some i else some c

unfoldable pick : Text → Option Info → PushInfo → Option Info
pick n cur [] = cur
pick n cur ((k, i) ∷ es) = pick n (if text_eq k n then better i cur else cur) es

find-take_earlier :
    (n k : Text) (i : Info) (m : PushInfo)
    → find n (take_earlier k i m) ≡ (if text_eq k n then better i (find n m) else find n m)
unfolding take_earlier
find-take_earlier n k i m = elim (Bool-cases (text_eq k n)) [
  | inl same ↦
      let there : find k m ≡ find n m = ap (λ t. find t m) ((text_eq_iff k n).0 same) in
      ground (arith, find-assign k n i m, there)
  | inr other ↦ ground (arith, find-assign k n i m)
]

find-take_all : (n : Text) (es m : PushInfo) → find n (take_all es m) ≡ pick n (find n m) es
unfolding take_all pick
find-take_all n [] m = refl
find-take_all n ((k, i) ∷ es) m =
    find-take_all n es (take_earlier k i m) ∙ ap (λ o. pick n o es) (find-take_earlier n k i m)

abbrev NoneEarlier : Text → ℕ → PushInfo → Type 0
NoneEarlier n when es = All (λ (e : Text × Info). text_eq e.0 n ≡ true → when ≤ e.1.when) es

-- The first entry of a node among those with the least time.
abbrev pub IsFirst : Text → Info → PushInfo → Type 0
IsFirst n i [] = ⊥
IsFirst n i ((k, j) ∷ es) =
    ((text_eq k n ≡ true) × (j ≡ i) × NoneEarlier n i.when es)
    ⊎ ((text_eq k n ≡ true → i.when < j.when) × IsFirst n i es)

-- An entry that is there stays, or a first one of those that follow is earlier.
pick-some :
    (n : Text) (c : Info) (es : PushInfo) (i : Info)
    → pick n (some c) es ≡ some i
    → ((c ≡ i) × NoneEarlier n i.when es) ⊎ ((i.when < c.when) × IsFirst n i es)
unfolding pick
pick-some n c [] i h = inl (cc, tt)
pick-some n c ((k, j) ∷ es) i h = elim (Bool-cases (text_eq k n)) [
  | inr other ↦ elim (pick-some n c es i (rw (pick, other) at h)) [
    | inl (e, a) ↦ inl (e, ((λ t. absurd (cc (t, other))), a))
    | inr (l, f) ↦ inr (l, inr ((λ t. absurd (cc (t, other))), f))
  ]
  | inl same ↦ elim (Bool-cases (ltb j.when c.when)) [
    | inl sooner ↦
        let less : j.when < c.when = ground (arith, sooner) in
        elim (pick-some n j es i (rw (pick, same, sooner) at h)) [
          | inl (e, a) ↦
              let time : j.when ≡ i.when = ap (λ (x : Info). x.when) e in
              inr (omega (arith, less, time), inl (same, e, a))
          | inr (l, f) ↦ inr (omega (arith, less, l), inr ((λ _. l), f))
        ]
    | inr later ↦
        let more : c.when ≤ j.when = ground (arith, later) in
        elim (pick-some n c es i (rw (pick, same, later) at h)) [
          | inl (e, a) ↦
              let time : c.when ≡ i.when = ap (λ (x : Info). x.when) e in
              inl (e, ((λ _. omega (arith, more, time)), a))
          | inr (l, f) ↦ inr (l, inr ((λ _. omega (arith, more, l)), f))
        ]
  ]
]

pick-none : (n : Text) (es : PushInfo) (i : Info) → pick n none es ≡ some i → IsFirst n i es
unfolding pick
pick-none n [] i h = absurd (cc h)
pick-none n ((k, j) ∷ es) i h = elim (Bool-cases (text_eq k n)) [
  | inr other ↦ inr ((λ t. absurd (cc (t, other))), pick-none n es i (rw (pick, other) at h))
  | inl same ↦ elim (pick-some n j es i (rw (pick, same) at h)) [
    | inl (e, a) ↦ inl (same, e, a)
    | inr (l, f) ↦ inr ((λ _. l), f)
  ]
]

-- A node without an entry is not among the keys.
member-keys :
    (n : Text) (m : PushInfo)
    → member n (map (λ e. e.0) m) ≡ true
    → (i : Info) × (find n m ≡ some i)
unfolding member find
member-keys n [] h = absurd (cc h)
member-keys n ((k, i) ∷ m) h = elim (Bool-cases (text_eq k n)) [
  | inl same ↦ (i, rw same refl)
  | inr other ↦
      let (j, e) = member-keys n m (ground (arith, h, other, text_eq_iff k n, text_eq_iff n k)) in
      (j, rw (find, other) e)
]

-- Nothing is left over, so all is there.
pub difference-member :
    (x : Text) (xs ys : List Text)
    → is_empty (difference xs ys) ≡ true
    → member x xs ≡ true
    → member x ys ≡ true
unfolding member difference
difference-member x [] ys e h = absurd (cc h)
difference-member x (y ∷ xs) ys e h = ground (arith, difference-member x xs ys, text_eq_iff x y)

-- Where the sources pass, each of their nodes has a push, and it is the first that any pushlog has
-- for it: of those with the least time, the first in the order of the sources and of their pushes.
pub collected-IsFirst :
    (srcs : Sources) (m : PushInfo) (n : Text)
    → collected srcs ≡ ok m
    → member n (allnodes srcs) ≡ true
    → (i : Info) × (find n m ≡ some i) × IsFirst n i (arrivals srcs)
unfolding collected find take_all
collected-IsFirst srcs m n h t =
    let (m1, gathered, h') = >>=-eq-ok (collect srcs []) _ h in
    elim (Bool-cases (is_empty (difference (allnodes srcs) (map (λ e. e.0) m1)))) [
      | inr left ↦ absurd (cc (rw left at h'))
      | inl all_there ↦
          let same : m1 ≡ m = cc (rw all_there at h') in
          let (i, found) = member-keys n m1 (difference-member n (allnodes srcs) _ all_there t) in
          let history = collect-take_all srcs [] gathered in
          (
            i,
            ap (find n) (sym same) ∙ found,
            pick-none n (arrivals srcs) i
                (sym (find-take_all n (arrivals srcs) []) ∙ ap (find n) (sym history) ∙ found),
          )
    ]

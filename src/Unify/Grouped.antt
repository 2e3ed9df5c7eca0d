-- ===== src/Unify/Grouped.antt =====
-- Which pushes `unifypushes` makes of the nodes.
use version_control_tools_fx.Base.{
  ◌≡◌, refl, sym, ap, ◌∙◌, Bool, true, false, List, [], ◌∷◌, ◌++◌, map, append_assoc, none, some,
  Text, All, arith, Bool-cases, inl, inr, if◌then◌else◌,
}
use version_control_tools_fx.Pushlog.Lookup.{insert_by, order_by}
use version_control_tools_fx.Unify.Collect.{Info, PushInfo}
use version_control_tools_fx.Unify.Pulls.{sorted_infos, entry_before}
use version_control_tools_fx.Unify.Pushes.{
  UnifiedPush, open_push, same_push, close_push, unify_from, unifypushes,
}

-- A run of entries: the first one, and those behind it.
abbrev pub Run : Type 0
Run = (Text × Info) × PushInfo

abbrev pub entries : List Run → PushInfo
entries [] = []
entries ((e, es) ∷ rs) = (e ∷ es) ++ entries rs

-- The push of a run: as the first entry says, with the nodes of all.
abbrev pub as_push : Run → UnifiedPush
as_push ((n, i), es) = record (open_push n i) { nodes = n ∷ map (λ e. e.0) es }

-- All entries of a run are of one push.
abbrev pub IsRun : Run → Type 0
IsRun ((n, i), es) = All (λ (e : Text × Info). same_push (open_push n i) e.1 ≡ true) es

-- A run ends where the push does.
abbrev pub Apart : List Run → Type 0
Apart [] = Unit
Apart (r ∷ []) = Unit
Apart (r ∷ s ∷ rs) = (same_push (as_push r) s.0.1 ≡ false) × Apart (s ∷ rs)

abbrev pub HasSource : Text × Info → Type 0
HasSource e = elim e.1.source [ [] ↦ ⊥ | c ∷ cs ↦ Unit ]

-- The runs, where the first is begun.
unfoldable split : Run → PushInfo → Run × List Run
split r [] = (r, [])
split (e, es) (f ∷ fs) =
    let same = split (e, es ++ f ∷ []) fs in
    let next = split (f, []) fs in
    if same_push (as_push (e, es)) f.1 then same else ((e, es), next.0 ∷ next.1)

split-entries :
    (r : Run) (fs : PushInfo) → entries ((split r fs).0 ∷ (split r fs).1) ≡ (r.0 ∷ r.1) ++ fs
unfolding split
split-entries (e, es) [] = refl
split-entries (e, es) (f ∷ fs) = elim (Bool-cases (same_push (as_push (e, es)) f.1)) [
  | inl same ↦
      rw (split, same) (split-entries (e, es ++ f ∷ []) fs ∙ append_assoc (e ∷ es) (f ∷ []) fs)
  | inr other ↦ rw (split, other) (ap (λ r. (e ∷ es) ++ r) (split-entries (f, []) fs))
]

-- The first entry of the first run stays.
split-first : (r : Run) (fs : PushInfo) → (split r fs).0.0 ≡ r.0
unfolding split
split-first r [] = refl
split-first (e, es) (f ∷ fs) = elim (Bool-cases (same_push (as_push (e, es)) f.1)) [
  | inl same ↦ rw (split, same) (split-first (e, es ++ f ∷ []) fs)
  | inr other ↦ rw (split, other) refl
]

All-snoc :
    (e f : Text × Info) (es : PushInfo)
    → IsRun (e, es)
    → same_push (open_push e.0 e.1) f.1 ≡ true
    → IsRun (e, es ++ f ∷ [])
All-snoc e f [] h s = (s, tt)
All-snoc e f (g ∷ es) h s = (h.0, All-snoc e f es h.1 s)

split-IsRun : (r : Run) (fs : PushInfo) → IsRun r → All IsRun ((split r fs).0 ∷ (split r fs).1)
unfolding split
split-IsRun r [] h = (h, tt)
split-IsRun (e, es) (f ∷ fs) h = elim (Bool-cases (same_push (as_push (e, es)) f.1)) [
  | inl same ↦ rw (split, same) (split-IsRun (e, es ++ f ∷ []) fs (All-snoc e f es h same))
  | inr other ↦ rw (split, other) (h, split-IsRun (f, []) fs tt)
]

split-Apart : (r : Run) (fs : PushInfo) → Apart ((split r fs).0 ∷ (split r fs).1)
unfolding split
split-Apart r [] = tt
split-Apart (e, es) (f ∷ fs) = elim (Bool-cases (same_push (as_push (e, es)) f.1)) [
  | inl same ↦ rw (split, same) (split-Apart (e, es ++ f ∷ []) fs)
  | inr other ↦ rw (split, other) (rw (split-first (f, []) fs) other, split-Apart (f, []) fs)
]

close_push-HasSource :
    (p : UnifiedPush) (e : Text × Info)
    → p.source ≡ e.1.source
    → HasSource e
    → close_push (some p) ≡ p ∷ []
close_push-HasSource p e same h = ground arith

keys-snoc :
    (es : PushInfo) (f : Text × Info)
    → map (λ (e : Text × Info). e.0) (es ++ f ∷ []) ≡ map (λ (e : Text × Info). e.0) es ++ f.0 ∷ []
keys-snoc [] f = refl
keys-snoc (e ∷ es) f = ap (λ ns. e.0 ∷ ns) (keys-snoc es f)

-- The loop makes these runs.
unify_from-split :
    (r : Run) (fs : PushInfo)
    → HasSource r.0
    → All HasSource fs
    → unify_from (some (as_push r)) fs ≡ map as_push ((split r fs).0 ∷ (split r fs).1)
unfolding unify_from split
unify_from-split (e, es) [] h a = close_push-HasSource (as_push (e, es)) e refl h
unify_from-split (e, es) (f ∷ fs) h a = elim (Bool-cases (same_push (as_push (e, es)) f.1)) [
  | inl same ↦
      rw (unify_from, split, same)
        (ap (λ ns. unify_from (some (record (open_push e.0 e.1) { nodes = e.0 ∷ ns })) fs)
            (sym (keys-snoc es f))
          ∙ unify_from-split (e, es ++ f ∷ []) fs h a.1)
  | inr other ↦
      rw (unify_from, split, other)
        (ap (λ us. as_push (e, es) ∷ us) (unify_from-split (f, []) fs a.0 a.1))
]

module _ {A : Type 0} (P : A → Type 0) (before : A → A → Bool) where
  All-insert_by : (x : A) (xs : List A) → P x → All P xs → All P (insert_by before x xs)
  unfolding insert_by
  All-insert_by x [] p a = (p, tt)
  All-insert_by x (y ∷ ys) p a = elim (Bool-cases (before x y)) [
    | inl first ↦ rw first (p, a)
    | inr behind ↦ rw behind (a.0, All-insert_by x ys p a.1)
  ]

  All-order_by : (xs : List A) → All P xs → All P (order_by before xs)
  unfolding order_by
  All-order_by [] a = tt
  All-order_by (x ∷ xs) a = All-insert_by x (order_by before xs) a.0 (All-order_by xs a.1)

-- The runs of entries in order.
runs_of :
    (es : PushInfo)
    → All HasSource es
    → (rs : List Run) × (entries rs ≡ es)
      × All IsRun rs
      × Apart rs
      × (unify_from none es ≡ map as_push rs)
unfolding unify_from
runs_of [] a = ([], refl, tt, tt, refl)
runs_of (e ∷ es) a =
    let (r, rs) = split (e, []) es in
    (
      r ∷ rs,
      split-entries (e, []) es,
      split-IsRun (e, []) es tt,
      split-Apart (e, []) es,
      unify_from-split (e, []) es a.0 a.1,
    )

-- The entries of the nodes, in the order of their pushes, fall into runs, each of entries of one push
-- and neighbours of different ones, and the unified pushlog has one push for each run: the source,
-- id, user and time of its first entry and the nodes of all. Each entry is to name a source.
pub unifypushes-runs :
    (m : PushInfo)
    → All HasSource m
    → (rs : List Run) × (entries rs ≡ sorted_infos m)
      × All IsRun rs
      × Apart rs
      × (unifypushes m ≡ map as_push rs)
unfolding unifypushes sorted_infos
unifypushes-runs m a = runs_of (sorted_infos m) (All-order_by HasSource entry_before m a)

-- ===== src/Checkout/Stored.antt =====
-- What the checks leave of the shared store.
use version_control_tools_fx.Base.{
  ◌≡◌, refl, sym, ap, ◌∙◌, Bool, true, false, not, ◌⊎◌, inl, inr, List, [], ◌∷◌, ◌++◌, Option, none,
  some, Text, codes, find, arith, if◌then◌else◌,
}
use mathlib.Core.Path.{subst}
use version_control_tools_fx.Hooks.Roots.{member, difference, is_empty}
use version_control_tools_fx.Checkout.Steps.{
  Store, State, Step, next, again, raised, M, and_then, ◌>>=◌, ◌>>◌, pure, raise, when, disk_of,
  remove_dest, without, remove_store, timeit, dest_exists,
}
use version_control_tools_fx.Checkout.Sanity.{
  drop_both, has_lock, lacks_requires, drop_locked_store, drop_odd_store, required, all_requires,
  drop_unless_complete, check_required, drop_incomplete_store, check_store,
}
use version_control_tools_fx.Checkout.Sane.{Gone, then-eq-next, pure-next}

pub bind-eq-next :
    {A B : Type 0} (m : M A) (k : A → M B) (s : State) {b : B} {s' : State}
    → (m >>= k) s ≡ next b s'
    → (a : A) × (s1 : State) × (m s ≡ next a s1) × (k a s1 ≡ next b s')
unfolding ◌>>=◌
bind-eq-next {A} {B} m k s {b} {s'} h = parts (m s) refl h
  where
    parts :
        (r : Step A)
        → m s ≡ r
        → and_then r k ≡ next b s'
        → (a : A) × (s1 : State) × (m s ≡ next a s1) × (k a s1 ≡ next b s')
    parts (next a s1) e h = (a, s1, e, h)
    parts (again s1) e h = absurd (cc h)
    parts (raised x s1) e h = absurd (cc h)

find-without : (path : Text) (stores : List (Text × Store)) → find path (without path stores) ≡ none
unfolding find without
find-without path [] = refl
find-without path ((p, t) ∷ stores) = ground (arith, find-without path stores)

-- Neither a destination nor the store is there.
abbrev Cleared : Text → State → Type 0
Cleared path s = Gone s × (find path s.disk.stores ≡ none)

removed :
    (op behavior path : Text) (s : State) {s' : State}
    → timeit op behavior (remove_store path) s ≡ next tt s'
    → (s'.disk.dest ≡ s.disk.dest) × (s'.disk.stores ≡ without path s.disk.stores)
unfolding timeit remove_store
removed op behavior path s h = ground (arith, h)

dest_removed :
    (b : Bool) (op behavior : Text) (s : State) {s' : State}
    → when b (timeit op behavior remove_dest) s ≡ next tt s'
    → b ≡ dest_exists s.disk
    → Gone s'
unfolding when timeit remove_dest pure
dest_removed true op behavior s h e = ground (arith, h)
dest_removed false op behavior s h e = ground (arith, h, e)

drop_both-Cleared :
    (dest_op store_op path : Text) (s : State) {s' : State}
    → drop_both dest_op store_op path s ≡ next tt s'
    → Cleared path s'
unfolding drop_both ◌>>=◌ disk_of
drop_both-Cleared dest_op store_op path s h =
    let (_, s1, dest, store) = then-eq-next _ _ s h in
    let (same, without_it) = removed store_op (codes "remove-store") path s1 store in
    (
      same ∙ dest_removed (dest_exists s.disk) dest_op (codes "remove-wdir") s dest refl,
      ap (find path) without_it ∙ find-without path s1.disk.stores,
    )

when_both :
    (b : Bool) (dest_op store_op path : Text) (s : State) {s' : State}
    → when b (drop_both dest_op store_op path) s ≡ next tt s'
    → Cleared path s' ⊎ ((b ≡ false) × (s' ≡ s))
unfolding when
when_both true dest_op store_op path s h = inl (drop_both-Cleared dest_op store_op path s h)
when_both false dest_op store_op path s h = inr (refl, pure-next s h)

-- The requirements of a store: its own, with those that a share-safe one keeps elsewhere.
abbrev pub requires_of : Store → Option (List Text)
requires_of t = elim t.requires [
  | none ↦ none
  | some rs ↦
      if member (codes "share-safe") rs
      then elim t.store_requires [ none ↦ none | some ms ↦ some (rs ++ ms) ]
      else some rs
]

-- A store that can be used.
abbrev pub IsSound : Store → Type 0
IsSound t =
    (t.lock ≡ false)
    × ((rs : List Text) × (requires_of t ≡ some rs)
        × (member (codes "dotencode") rs ≡ true)
        × (member (codes "fncache") rs ≡ true))

complete :
    (rs : List Text)
    → is_empty (difference required rs) ≡ true
    → (member (codes "dotencode") rs ≡ true) × (member (codes "fncache") rs ≡ true)
unfolding difference
complete rs h = ground (arith, h)

all_requires-next :
    (rs : List Text) (more : Option (List Text)) (s : State) {all : List Text} {s' : State}
    → all_requires rs more s ≡ next all s'
    → (s' ≡ s)
      × ((if member (codes "share-safe") rs
            then elim more as (λ _. Option (List Text)) [ none ↦ none | some ms ↦ some (rs ++ ms) ]
            else some rs)
          ≡ some all)
unfolding all_requires pure raise
all_requires-next rs more s h = ground (arith, h)

-- A store with requirements is sound, or is deleted.
check_required-next :
    (path : Text) (t : Store) (s : State) {s' : State}
    → check_required path t s ≡ next tt s'
    → t.lock ≡ false
    → lacks_requires (some t) ≡ false
    → Cleared path s' ⊎ (IsSound t × (s' ≡ s))
check_required-next path t s {s'} h free has = cases t.requires refl h
  where
    cases :
        (o : Option (List Text))
        → t.requires ≡ o
        → (elim o as (λ _. M (Unit {0})) [
          | none ↦ pure tt
          | some rs ↦ all_requires rs t.store_requires >>= drop_unless_complete path
        ])
            s
          ≡ next tt s'
        → Cleared path s' ⊎ (IsSound t × (s' ≡ s))
    cases none e g = absurd (ground (arith, has, e))
    cases (some rs) e g =
        let (every, s1, first, rest) =
          bind-eq-next (all_requires rs t.store_requires) (drop_unless_complete path) s g in
        let (same, is) = all_requires-next rs t.store_requires s first in
        let known : requires_of t ≡ some every = (rw (requires_of, e) refl) ∙ is in
        elim (when_both (not (is_empty (difference required every))) _ _ path s1 rest) [
          | inl cleared ↦ inl cleared
          | inr (whole, same') ↦
              let (dotencode, fncache) = complete every (ground (arith, whole)) in
              inr ((free, (every, known, dotencode, fncache)), same' ∙ same)
        ]

check_incomplete :
    (path : Text) (o : Option Store) (s : State) {s' : State}
    → (elim o as (λ _. M (Unit {0})) [ none ↦ pure tt | some t ↦ check_required path t ]) s
      ≡ next tt s'
    → has_lock o ≡ false
    → lacks_requires o ≡ false
    → Cleared path s' ⊎ (((t : Store) → o ≡ some t → IsSound t) × (s' ≡ s))
check_incomplete path none s h free has = inr ((λ t e. absurd (cc e)), pure-next s h)
check_incomplete path (some t) s h free has = elim (check_required-next path t s h free has) [
  | inl cleared ↦ inl cleared
  | inr (sound, same) ↦ inr ((λ u e. let it : t ≡ u = cc e in subst IsSound it sound), same)
]

locked-next :
    (path : Text) (s : State) {s' : State}
    → drop_locked_store path s ≡ next tt s'
    → Cleared path s' ⊎ ((has_lock (find path s.disk.stores) ≡ false) × (s' ≡ s))
unfolding drop_locked_store ◌>>=◌ disk_of
locked-next path s h = when_both _ _ _ path s h

odd-next :
    (path : Text) (s : State) {s' : State}
    → drop_odd_store path s ≡ next tt s'
    → Cleared path s' ⊎ ((lacks_requires (find path s.disk.stores) ≡ false) × (s' ≡ s))
unfolding drop_odd_store ◌>>=◌ disk_of
odd-next path s h = when_both _ _ _ path s h

incomplete-next :
    (path : Text) (s : State) {s' : State}
    → drop_incomplete_store path s ≡ next tt s'
    → has_lock (find path s.disk.stores) ≡ false
    → lacks_requires (find path s.disk.stores) ≡ false
    → Cleared path s' ⊎ (((t : Store) → find path s.disk.stores ≡ some t → IsSound t) × (s' ≡ s))
unfolding drop_incomplete_store ◌>>=◌ disk_of
incomplete-next path s h free has = check_incomplete path (find path s.disk.stores) s h free has

stays-Cleared :
    (C : Type 0) (path : Text) (s : State) {s' : State}
    → Cleared path s
    → Cleared path s' ⊎ (C × (s' ≡ s))
    → Cleared path s'
stays-Cleared C path s g (inl cleared) = cleared
stays-Cleared C path s g (inr (c, same)) = subst (Cleared path) (sym same) g

-- A store that is gone passes the check of its requirements.
Cleared-behind :
    (path : Text) (s : State) {s' : State}
    → Cleared path s
    → drop_incomplete_store path s ≡ next tt s'
    → Cleared path s'
Cleared-behind path s g h =
    stays-Cleared _ path s g (incomplete-next path s h (ap has_lock g.1) (ap lacks_requires g.1))

-- Where the checks of the store pass, neither it nor a destination is there, or nothing has changed
-- and the store, if it is there, has no lock and the requirements that are demanded.
pub check_store-IsSound :
    (path : Text) (s s' : State)
    → check_store path s ≡ next tt s'
    → ((s'.disk.dest ≡ none) × (find path s'.disk.stores ≡ none))
      ⊎ ((s' ≡ s) × ((t : Store) → find path s.disk.stores ≡ some t → IsSound t))
unfolding check_store
check_store-IsSound path s s' h =
    let (_, s1, locked, h1) =
      then-eq-next (drop_locked_store path) (drop_odd_store path >> drop_incomplete_store path) s
        h in
    let (_, s2, odd, incomplete) =
      then-eq-next (drop_odd_store path) (drop_incomplete_store path) s1 h1 in
    elim (locked-next path s locked) [
      | inl cleared ↦ inl (
          Cleared-behind path s2 (stays-Cleared _ path s1 cleared (odd-next path s1 odd))
            incomplete)
      | inr (free, is1) ↦ elim (odd-next path s (ap (drop_odd_store path) (sym is1) ∙ odd)) [
        | inl cleared ↦ inl (Cleared-behind path s2 cleared incomplete)
        | inr (has, is2) ↦
            elim (incomplete-next path s (ap (drop_incomplete_store path) (sym is2) ∙ incomplete)
              free has) [ inl cleared ↦ inl cleared | inr (sound, is3) ↦ inr (is3, sound) ]
      ]
    ]

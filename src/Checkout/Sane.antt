-- ===== src/Checkout/Sane.antt =====
-- What the checks leave of the destination and of the shared store.
use version_control_tools_fx.Base.{
  ◌≡◌, refl, sym, ap, ◌∙◌, Bool, true, false, not, ◌&&◌, ◌⊎◌, inl, inr, Option, none, some, Text,
  codes, strip, Bool-cases, Option-cases, arith,
}
use mathlib.Core.Path.{subst}
use version_control_tools_fx.Checkout.Steps.{
  Disk, State, Step, next, again, raised, M, and_then, ◌>>=◌, ◌>>◌, pure, raise, when, disk_of,
  remove_dest, timeit, dest_exists, has_hg, has_wlock, sharedpath_of, store_exists,
}
use version_control_tools_fx.Checkout.Sanity.{
  store_dir, is_pooled, refuse_dest, is_none, drop_unshared, check_path, check_shared, drop_locked,
  check_dest,
}

-- A call that ends with a value, in its parts.
pub then-eq-next :
    {A B : Type 0} (m : M A) (n : M B) (s : State) {b : B} {s' : State}
    → (m >> n) s ≡ next b s'
    → (a : A) × (s1 : State) × (m s ≡ next a s1) × (n s1 ≡ next b s')
unfolding ◌>>◌
then-eq-next {A} {B} m n s {b} {s'} h = parts (m s) refl h
  where
    parts :
        (r : Step A)
        → m s ≡ r
        → and_then r (λ _. n) ≡ next b s'
        → (a : A) × (s1 : State) × (m s ≡ next a s1) × (n s1 ≡ next b s')
    parts (next a s1) e h = (a, s1, e, h)
    parts (again s1) e h = absurd (cc h)
    parts (raised x s1) e h = absurd (cc h)

abbrev pub Gone : State → Type 0
Gone s = s.disk.dest ≡ none

-- The destination is deleted under a condition, or nothing happens.
when-drop :
    (b : Bool) (op behavior : Text) (s : State) {s' : State}
    → when b (timeit op behavior remove_dest) s ≡ next tt s'
    → Gone s' ⊎ ((b ≡ false) × (s' ≡ s))
unfolding when timeit remove_dest pure
when-drop true op behavior s h = inl (ground (arith, h))
when-drop false op behavior s h = inr (refl, ground (arith, h))

refuse_dest-next :
    (profile : Text) (s : State) {s' : State}
    → refuse_dest profile s ≡ next tt s'
    → (s' ≡ s) × ((dest_exists s.disk && not (has_hg s.disk)) ≡ false)
unfolding refuse_dest ◌>>=◌ ◌>>◌ when pure raise disk_of
refuse_dest-next profile s h = ground (arith, h)

drop_unshared-next :
    (s : State) {s' : State}
    → drop_unshared s ≡ next tt s'
    → Gone s' ⊎ (((has_hg s.disk && is_none (sharedpath_of s.disk)) ≡ false) × (s' ≡ s))
unfolding drop_unshared ◌>>=◌ disk_of
drop_unshared-next s h = when-drop _ _ _ s h

drop_locked-next :
    (s : State) {s' : State}
    → drop_locked s ≡ next tt s'
    → Gone s' ⊎ ((has_wlock s.disk ≡ false) × (s' ≡ s))
unfolding drop_locked ◌>>=◌ disk_of
drop_locked-next s h = when-drop _ _ _ s h

pub pure-next : (s : State) {s' : State} → pure tt s ≡ next tt s' → s' ≡ s
unfolding pure
pure-next s h = ground (arith, h)

-- A share of a pooled store that is there.
abbrev pub IsShare : Text → Disk → Type 0
IsShare raw d = (store_exists (store_dir (strip raw)) d ≡ true) × (is_pooled (strip raw) ≡ true)

timeit-Gone :
    (op behavior : Text) (s : State) {s' : State}
    → timeit op behavior remove_dest s ≡ next tt s'
    → Gone s'
unfolding timeit remove_dest
timeit-Gone op behavior s h = ground (arith, h)

check_path-next :
    (p : Text) (s : State) {s' : State}
    → check_path p s.disk s ≡ next tt s'
    → Gone s' ⊎ (((store_exists (store_dir p) s.disk ≡ true) × (is_pooled p ≡ true)) × (s' ≡ s))
check_path-next p s {s'} h = elim (Bool-cases (store_exists (store_dir p) s.disk)) [
  | inr missing ↦ inl (
      timeit-Gone (codes "removed_missing_shared_store") (codes "remove-wdir") s
        (rw (missing, check_path) at h))
  | inl there ↦
      let rest : when (not (is_pooled p))
            (timeit (codes "remove_unpooled_store") (codes "remove-wdir") remove_dest) s
          ≡ next tt s' =
        rw (there, check_path) at h in
      elim (when-drop (not (is_pooled p)) (codes "remove_unpooled_store") (codes "remove-wdir") s
        rest) [ inl gone ↦ inl gone | inr (e, same) ↦ inr ((there, ground (arith, e)), same) ]
]

check_shared-next :
    (s : State) {s' : State}
    → check_shared s ≡ next tt s'
    → Gone s' ⊎ (((raw : Text) → sharedpath_of s.disk ≡ some raw → IsShare raw s.disk) × (s' ≡ s))
unfolding check_shared ◌>>=◌ disk_of
check_shared-next s {s'} h = cases (sharedpath_of s.disk) refl h
  where
    cases :
        (o : Option Text)
        → sharedpath_of s.disk ≡ o
        → (elim o as (λ _. M (Unit {0})) [
          | none ↦ pure tt
          | some raw ↦ check_path (strip raw) s.disk
        ])
            s
          ≡ next tt s'
        → Gone s'
          ⊎ (((raw : Text) → sharedpath_of s.disk ≡ some raw → IsShare raw s.disk) × (s' ≡ s))
    cases none e g = inr ((λ raw t. absurd (cc (e, t))), pure-next s g)
    cases (some raw) e g = elim (check_path-next (strip raw) s g) [
      | inl gone ↦ inl gone
      | inr (share, same) ↦ inr (
        (λ raw' t. let it : raw ≡ raw' = cc (e, t) in subst (λ r. IsShare r s.disk) it share),
        same,
      )
    ]

-- The destination is a shared checkout of a pooled store that is there, without a lock.
abbrev pub IsSettled : Disk → Type 0
IsSettled d =
    (has_hg d ≡ true)
    × (has_wlock d ≡ false)
    × ((raw : Text) × (sharedpath_of d ≡ some raw) × IsShare raw d)

-- A check deletes the destination or leaves all as it is.
stays-Gone : (C : Type 0) (s : State) {s' : State} → Gone s → Gone s' ⊎ (C × (s' ≡ s)) → Gone s'
stays-Gone C s g (inl gone) = gone
stays-Gone C s g (inr (c, same)) = ap (λ (t : State). t.disk.dest) same ∙ g

Gone-behind :
    (s : State) {s' : State} → Gone s → (check_shared >> drop_locked) s ≡ next tt s' → Gone s'
Gone-behind s g h =
    let (_, s1, shared, locked) = then-eq-next check_shared drop_locked s h in
    stays-Gone _ s1 (stays-Gone _ s g (check_shared-next s shared)) (drop_locked-next s1 locked)

-- What passes all checks as it is.
settled :
    (d : Disk)
    → (dest_exists d && not (has_hg d)) ≡ false
    → (has_hg d && is_none (sharedpath_of d)) ≡ false
    → ((raw : Text) → sharedpath_of d ≡ some raw → IsShare raw d)
    → has_wlock d ≡ false
    → (d.dest ≡ none) ⊎ IsSettled d
settled d hg shared share free = elim (Option-cases d.dest) [
  | inl missing ↦ inl missing
  | inr (x, e) ↦
      let exists : dest_exists d ≡ true = rw (dest_exists, e) refl in
      let has : has_hg d ≡ true = ground (arith, hg, exists) in
      elim (Option-cases (sharedpath_of d)) [
        | inl unset ↦
            let empty : is_none (sharedpath_of d) ≡ true = ap is_none unset in
            absurd (ground (arith, has, empty, shared))
        | inr (raw, t) ↦ inr (has, free, (raw, t, share raw t))
      ]
]

-- Where the checks of the destination pass, there is none, or it is what it was before and a checkout
-- that shares a pooled store that is there and that no process has locked.
pub check_dest-IsSettled :
    (profile : Text) (s s' : State)
    → check_dest profile s ≡ next tt s'
    → (s'.disk.dest ≡ none) ⊎ ((s' ≡ s) × IsSettled s.disk)
unfolding check_dest
check_dest-IsSettled profile s s' h =
    let (_, s1, refused, h1) = then-eq-next (refuse_dest profile) _ s h in
    let (is, hg) = refuse_dest-next profile s refused in
    let (_, s2, unshared, h2) =
      then-eq-next drop_unshared (check_shared >> drop_locked) s
        (ap (drop_unshared >> (check_shared >> drop_locked)) (sym is) ∙ h1) in
    elim (drop_unshared-next s unshared) [
      | inl gone ↦ inl (Gone-behind s2 gone h2)
      | inr (shared, is2) ↦
          let (_, s3, sharing, locked) =
            then-eq-next check_shared drop_locked s
              (ap (check_shared >> drop_locked) (sym is2) ∙ h2) in
          elim (check_shared-next s sharing) [
            | inl gone ↦ inl (stays-Gone _ s3 gone (drop_locked-next s3 locked))
            | inr (share, is3) ↦ elim (drop_locked-next s (ap drop_locked (sym is3) ∙ locked)) [
              | inl gone ↦ inl gone
              | inr (free, is4) ↦ elim (settled s.disk hg shared share free) [
                | inl missing ↦ inl (ap (λ (t : State). t.disk.dest) is4 ∙ missing)
                | inr ok_dest ↦ inr (is4, ok_dest)
              ]
            ]
          ]
    ]

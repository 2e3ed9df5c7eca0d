-- ===== src/Hooks/Roots/Laws.antt =====
-- Which pushes `SingleRootCheck` lets in.
use version_control_tools_fx.Base.{
  ℕ, ◌≡◌, refl, Bool, true, false, not, ◌&&◌, ◌||◌, List, [], ◌∷◌, Text, text_eq_iff, all, arith,
  if◌then◌else◌,
}
use version_control_tools_fx.Hooks.Extension.{
  run_checks, pre_checks, check_changeset, check_changesets, post_checks,
}
use version_control_tools_fx.Hooks.Roots.{
  Changeset, member, add, difference, is_empty, new_root, single_root,
}

-- No root is left over.
abbrev covered : List Text → List Text → Bool
covered allowed s = is_empty (difference s allowed)

covered-member :
    (allowed s : List Text) (x : Text)
    → member x s ≡ true
    → covered allowed s ≡ true
    → member x allowed ≡ true
unfolding member difference
covered-member allowed [] x h c = absurd (cc h)
covered-member allowed (y ∷ s) x h c = ground (arith, covered-member allowed s x, text_eq_iff x y)

covered-add :
    (allowed s : List Text) (x : Text)
    → covered allowed (add x s) ≡ (member x allowed && covered allowed s)
unfolding add difference
covered-add allowed s x = ground (arith, covered-member allowed s x)

-- Not a new root, or one that the configuration allows.
abbrev pub allows : List Text → Changeset → Bool
allows allowed c = not (new_root c) || member c.node allowed

covered-empty : (allowed : List Text) → covered allowed [] ≡ true
unfolding difference
covered-empty allowed = refl

-- What is gathered is covered exactly where each changeset is allowed.
gathered :
    (user : Bool) (allowed : List Text) (cs : List Changeset) (s : List Text)
    → ((check_changesets (single_root user allowed ∷ []) cs s).0 ≡ true)
      × (covered allowed (check_changesets (single_root user allowed ∷ []) cs s).1
          ≡ (all (allows allowed) cs && covered allowed s))
unfolding check_changesets check_changeset single_root
gathered user allowed [] s = (refl, refl)
gathered user allowed (c ∷ cs) s =
    let s' = if new_root c then add c.node s else s in
    let (passes, later) = gathered user allowed cs s' in
    (passes, ground (arith, later, covered-add allowed s c.node))

single_root-post :
    (user : Bool) (allowed s : List Text)
    → (post_checks (single_root user allowed ∷ []) s).0 ≡ covered allowed s
unfolding post_checks single_root difference
single_root-post user allowed [] = refl
single_root-post user allowed (x ∷ s) = ground arith

single_root-pre :
    (user : Bool) (allowed s : List Text) → pre_checks (single_root user allowed ∷ []) s ≡ []
unfolding pre_checks single_root
single_root-pre user allowed s = refl

and_covered : (b : Bool) → ◌≡◌ {A = ℕ} (if b && true then 0 else 1) (if b then 0 else 1)
and_covered true = refl
and_covered false = refl

-- A push is let in exactly where each new root in it is allowed.
single_root-run_checks :
    (user_repo : Bool) (allowed_roots : List Text) (cs : List Changeset) (s : List Text)
    → (run_checks (single_root user_repo allowed_roots ∷ []) cs s).0
      ≡ (if all (allows allowed_roots) cs then 0 else 1)
unfolding run_checks
single_root-run_checks user allowed cs s =
    let (passes, is) = gathered user allowed cs [] in
    let roots = (check_changesets (single_root user allowed ∷ []) cs []).1 in
    rw
      (
        single_root-pre user allowed s,
        passes,
        single_root-post user allowed roots,
        is,
        covered-empty allowed,
      )
      (and_covered (all (allows allowed) cs))

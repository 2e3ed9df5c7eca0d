-- ===== src/Hooks/Checks/Stateless.antt =====
-- A push under a check that keeps nothing, and under one that keeps whether it is an uplift.
use version_control_tools_fx.Base.{
  ◌≡◌, refl, ap, Bool, true, false, ◌||◌, List, [], ◌∷◌, Text, all, arith, Bool-cases, inl, inr,
  if◌then◌else◌,
}
use version_control_tools_fx.Hooks.Extension.{
  run_checks, pre_checks, check_changeset, check_changesets, post_checks,
}
use version_control_tools_fx.Hooks.Checks.{Commit, plain, unless_uplift, is_uplift}

module _ {S : Type 0} (name : Text) (relevant : Bool) (passes : Commit → Bool) where
  plain-changesets :
      (cs : List Commit) (s : S)
      → check_changesets (plain name relevant passes ∷ []) cs s ≡ (all passes cs, s)
  unfolding check_changesets check_changeset
  plain-changesets [] s = refl
  plain-changesets (c ∷ cs) s = elim (Bool-cases (passes c)) [
    | inl passed ↦ rw (check_changesets, passed) (plain-changesets cs s)
    | inr refused ↦ rw (check_changesets, refused) refl
  ]

  -- A push is let in exactly where each changeset passes.
  pub plain-run_checks :
      (cs : List Commit) (s : S)
      → (run_checks (plain name relevant passes ∷ []) cs s).0 ≡ (if all passes cs then 0 else 1)
  unfolding run_checks pre_checks post_checks
  plain-run_checks cs s = elim (Bool-cases (all passes cs)) [
    | inl e ↦ rw (run_checks, plain-changesets cs s, e) refl
    | inr e ↦ rw (run_checks, plain-changesets cs s, e) refl
  ]

module _ (name : Text) (relevant : Bool) (tip : Text) (passes : Commit → Bool) where
  uplift-changesets :
      (cs : List Commit) (s : Bool)
      → check_changesets (unless_uplift name relevant tip passes ∷ []) cs s
        ≡ (s || all passes cs, s)
  unfolding check_changesets check_changeset
  uplift-changesets [] s = ap (λ b. (b, s)) (ground arith)
  uplift-changesets (c ∷ cs) true = uplift-changesets cs true
  uplift-changesets (c ∷ cs) false = elim (Bool-cases (passes c)) [
    | inl passed ↦ rw (check_changesets, passed) (uplift-changesets cs false)
    | inr refused ↦ rw (check_changesets, refused) refl
  ]

  -- A push is let in exactly where it is an uplift or each changeset passes.
  pub uplift-run_checks :
      (cs : List Commit) (s : Bool)
      → (run_checks (unless_uplift name relevant tip passes ∷ []) cs s).0
        ≡ (if is_uplift tip || all passes cs then 0 else 1)
  unfolding run_checks pre_checks post_checks
  uplift-run_checks cs s = elim (Bool-cases (is_uplift tip || all passes cs)) [
    | inl e ↦ rw (run_checks, uplift-changesets cs (is_uplift tip), e) refl
    | inr e ↦ rw (run_checks, uplift-changesets cs (is_uplift tip), e) refl
  ]

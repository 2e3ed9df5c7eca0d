-- ===== src/Hooks/Extension/Calls.antt =====
-- The order in which the checks are asked, and which ones are.
use version_control_tools_fx.Base.{
  ◌≡◌, refl, sym, Bool, true, false, not, ◌&&◌, ◌||◌, List, [], ◌∷◌, ◌++◌, map, Option, Text,
  Bool-cases, inl, inr, arith, if◌then◌else◌,
}
use version_control_tools_fx.Hooks.Extension.{
  Check, force_enable, force_disable, active_checks, pre_checks, check_changeset, check_changesets,
  post_checks, exit, run_checks,
}

module _ {S : Type 0} where
  -- Calls in order, up to the first that refuses.
  abbrev pub run_calls : List (S → Bool × S) → S → Bool × S
  run_calls [] s = (true, s)
  run_calls (f ∷ fs) s = if (f s).0 then run_calls fs (f s).1 else (false, (f s).1)

  run_calls-append :
      (fs gs : List (S → Bool × S)) (s : S)
      → run_calls (fs ++ gs) s
        ≡ (if (run_calls fs s).0 then run_calls gs (run_calls fs s).1 else run_calls fs s)
  run_calls-append [] gs s = refl
  run_calls-append (f ∷ fs) gs s = elim (Bool-cases (f s).0) [
    | inl passes ↦ rw passes (run_calls-append fs gs (f s).1)
    | inr fails ↦ rw fails refl
  ]

module _ {S C : Type 0} where
  -- Each changeset is shown to each check, the changesets outside; then the final checks.
  abbrev pub changeset_calls : List (Check S C) → List C → List (S → Bool × S)
  changeset_calls ks [] = []
  changeset_calls ks (c ∷ cs) = map (λ (k : Check S C). k.check c) ks ++ changeset_calls ks cs

  abbrev pub calls : List (Check S C) → List C → List (S → Bool × S)
  calls ks cs = changeset_calls ks cs ++ map (λ (k : Check S C). k.post_check) ks

  check_changeset-eq :
      (ks : List (Check S C)) (c : C) (s : S)
      → check_changeset ks c s ≡ run_calls (map (λ (k : Check S C). k.check c) ks) s
  unfolding check_changeset
  check_changeset-eq [] c s = refl
  check_changeset-eq (k ∷ ks) c s = rw (check_changeset-eq ks c (k.check c s).1) refl

  check_changesets-eq :
      (ks : List (Check S C)) (cs : List C) (s : S)
      → check_changesets ks cs s ≡ run_calls (changeset_calls ks cs) s
  unfolding check_changesets
  check_changesets-eq ks [] s = refl
  check_changesets-eq ks (c ∷ cs) s =
      let here = map (λ (k : Check S C). k.check c) ks in
      let later = changeset_calls ks cs in
      elim (Bool-cases (run_calls here s).0) [
        | inl passes ↦
            rw (check_changeset-eq ks c s, run_calls-append here later s, passes)
              (check_changesets-eq ks cs (run_calls here s).1)
        | inr fails ↦
            rw (check_changeset-eq ks c s, run_calls-append here later s, fails)
              (λ i. (sym fails i, (run_calls here s).1))
      ]

  post_checks-eq :
      (ks : List (Check S C)) (s : S)
      → post_checks ks s ≡ run_calls (map (λ (k : Check S C). k.post_check) ks) s
  unfolding post_checks
  post_checks-eq [] s = refl
  post_checks-eq (k ∷ ks) s = rw (post_checks-eq ks (k.post_check s).1) refl

  -- The three loops of a hook are the calls in one sequence, up to the first that refuses, and 1
  -- is the answer exactly where one refuses.
  pub run_checks-eq-calls :
      (ks : List (Check S C)) (cs : List C) (s : S)
      → run_checks ks cs s ≡ exit (run_calls (calls ks cs) (pre_checks ks s))
  unfolding run_checks
  run_checks-eq-calls ks cs s =
      let s' = pre_checks ks s in
      let during = changeset_calls ks cs in
      let final = map (λ (k : Check S C). k.post_check) ks in
      elim (Bool-cases (run_calls during s').0) [
        | inl passes ↦
            rw
              (
                check_changesets-eq ks cs s',
                run_calls-append during final s',
                passes,
                post_checks-eq ks (run_calls during s').1,
              )
              refl
        | inr fails ↦
            rw (check_changesets-eq ks cs s', run_calls-append during final s', fails)
              (rw fails refl)
      ]

  -- Which checks are asked: those of the classes, in order, that the configuration enables, or
  -- that are relevant and that it does not disable.
  abbrev pub enabled : (Text → Option Text) → Check S C → Bool
  enabled config k =
      force_enable (config k.name) || (k.relevant && not (force_disable (config k.name)))

  abbrev pub select : (Check S C → Bool) → List (Check S C) → List (Check S C)
  select p [] = []
  select p (k ∷ ks) = if p k then k ∷ select p ks else select p ks

  pub active_checks-eq-select :
      (config : Text → Option Text) (ks : List (Check S C))
      → active_checks config ks ≡ select (enabled config) ks
  unfolding active_checks
  active_checks-eq-select config [] = refl
  active_checks-eq-select config (k ∷ ks) = ground (arith, active_checks-eq-select config ks)

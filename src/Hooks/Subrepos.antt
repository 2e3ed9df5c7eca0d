-- ===== src/Hooks/Subrepos.antt =====
-- check/prevent_subrepos.py: `PreventSubReposCheck`, whose state is `done`. What `repo.file` says
-- of a path, whether any revision of it is stored, is the argument `stored`.
use version_control_tools_fx.Base.{
  ℕ, ◌≡◌, ◌∙◌, refl, Bool, true, false, not, ◌||◌, List, [], ◌∷◌, Text, codes, any, All, arith,
  Bool-cases, inl, inr, if◌then◌else◌,
}
use version_control_tools_fx.Hooks.Extension.{
  Check, run_checks, pre_checks, check_changeset, check_changesets, post_checks,
}
use version_control_tools_fx.Hooks.Roots.{Changeset, member}

abbrev pub hgsub : Text
hgsub = codes ".hgsub"

abbrev pub hgsubstate : Text
hgsubstate = codes ".hgsubstate"

abbrev pub has_subrepos : Changeset → Bool
has_subrepos c = member hgsub c.files || member hgsubstate c.files

unfoldable pub prevent_subrepos : (Text → Bool) → Check Bool Changeset
prevent_subrepos stored = record {
  name = codes "prevent_subrepos";
  relevant = true;
  pre = λ done. not (stored hgsub || stored hgsubstate);
  check = λ c done.
      if done then (true, done) else if not (has_subrepos c) then (true, done) else (false, true);
  post_check = λ done. (true, done);
}

-- The repository stores what its changesets hold.
abbrev pub Stores : (Text → Bool) → Changeset → Type 0
Stores stored c = has_subrepos c ≡ true → (stored hgsub || stored hgsubstate) ≡ true

-- Where the check is not done, it refuses the first changeset with subrepositories.
checked :
    (stored : Text → Bool) (cs : List Changeset)
    → (check_changesets (prevent_subrepos stored ∷ []) cs false).0 ≡ not (any has_subrepos cs)
unfolding check_changesets check_changeset prevent_subrepos
checked stored [] = refl
checked stored (c ∷ cs) = ground (arith, checked stored cs)

skipped :
    (stored : Text → Bool) (cs : List Changeset)
    → (check_changesets (prevent_subrepos stored ∷ []) cs true).0 ≡ true
unfolding check_changesets check_changeset prevent_subrepos
skipped stored [] = refl
skipped stored (c ∷ cs) = skipped stored cs

none_stored :
    (stored : Text → Bool) (cs : List Changeset)
    → (stored hgsub || stored hgsubstate) ≡ false
    → All (Stores stored) cs
    → any has_subrepos cs ≡ false
none_stored stored [] h a = refl
none_stored stored (c ∷ cs) h a = elim (Bool-cases (has_subrepos c)) [
  | inl has ↦ cc (a.0 has, h)
  | inr hasnt ↦ rw hasnt (none_stored stored cs h a.1)
]

posted :
    (stored : Text → Bool) (done : Bool)
    → (post_checks (prevent_subrepos stored ∷ []) done).0 ≡ true
unfolding post_checks prevent_subrepos
posted stored done = refl

prepared :
    (stored : Text → Bool) (done : Bool)
    → pre_checks (prevent_subrepos stored ∷ []) done ≡ not (stored hgsub || stored hgsubstate)
unfolding pre_checks prevent_subrepos
prepared stored done = refl

-- The answer behind the changesets.
answered :
    (stored : Text → Bool) (cs : List Changeset) (done passes : Bool)
    → (check_changesets
        (prevent_subrepos stored ∷ [])
        cs
        (pre_checks (prevent_subrepos stored ∷ []) done)).0
      ≡ passes
    → (run_checks (prevent_subrepos stored ∷ []) cs done).0 ≡ (if passes then 0 else 1)
unfolding run_checks
answered stored cs done true h = rw h (rw (posted stored _) refl)
answered stored cs done false h = rw h refl

if_not : (b : Bool) → ◌≡◌ {A = ℕ} (if not b then 0 else 1) (if b then 1 else 0)
if_not true = refl
if_not false = refl

-- Where the repository stores what its changesets hold, a push is refused exactly where a changeset
-- of it has subrepositories; the shortcut by what is stored changes nothing.
prevent_subrepos-run_checks :
    (stored : Text → Bool) (cs : List Changeset) (done : Bool)
    → All (Stores stored) cs
    → (run_checks (prevent_subrepos stored ∷ []) cs done).0 ≡ (if any has_subrepos cs then 1 else 0)
prevent_subrepos-run_checks stored cs done a =
    elim (Bool-cases (stored hgsub || stored hgsubstate)) [
      | inl seen ↦
          answered stored cs done (not (any has_subrepos cs))
            (rw (prepared stored done, seen) (checked stored cs))
          ∙ if_not (any has_subrepos cs)
      | inr unseen ↦
          rw (none_stored stored cs unseen a)
            (answered stored cs done true (rw (prepared stored done, unseen) (skipped stored cs)))
    ]

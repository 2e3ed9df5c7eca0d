-- ===== src/Hooks/Guards/Refusals.antt =====
-- Which pushes the hooks refuse.
use version_control_tools_fx.Base.{
  ℕ, ◌≤◌, ◌≡◌, ◌↔◌, refl, Bool, true, false, ◌||◌, List, [], ◌∷◌, none, some, Text, text_eq, codes,
  any, All, length, arith, inl, inr, ◌⊎◌, contains, if◌then◌else◌,
}
use version_control_tools_fx.Hooks.Guards.{
  not_a_push, Head, newheads, single_head_branches, single_head_per_branch, FileEntry, lower,
  reject_file, reject_files, reject_changesets, prevent_case_only_renames, TreeStatus, status,
  treeclosure, unreachable, magicwords,
}

-- One head at most that neither closes the branch nor is hidden.
abbrev pub OneHead : Text × List Head → Type 0
OneHead (branch, heads) = length (newheads heads) ≤ 1

heads-OneHead :
    (branches : List (Text × List Head))
    → (single_head_branches branches ≡ 0) ↔ All OneHead branches
unfolding single_head_branches
heads-OneHead [] = (λ h. tt, λ h. refl)
heads-OneHead ((branch, heads) ∷ branches) = ground (arith, heads-OneHead branches)

-- A push, which is neither a pull nor a strip, is let in exactly where it leaves each branch with at most one open head.
single_head-OneHead :
    (source : Text) (branchmap : List (Text × List Head))
    → not_a_push source ≡ false
    → (single_head_per_branch source branchmap ≡ 0) ↔ All OneHead branchmap
unfolding single_head_per_branch
single_head-OneHead source branchmap push = rw push (heads-OneHead branchmap)

-- The rename changes the letters' case only.
abbrev pub case_only : FileEntry → Bool
case_only (f, none) = false
case_only (f, some source) = text_eq (lower f) (lower source)

reject_files-eq : (fs : List FileEntry) (r : Bool) → reject_files fs r ≡ (any case_only fs || r)
unfolding reject_files
reject_files-eq [] r = refl
reject_files-eq ((f, none) ∷ fs) r = reject_files-eq fs r
reject_files-eq ((f, some source) ∷ fs) r =
    ground (arith, reject_files-eq fs (reject_file (f, some source) r))

reject_changesets-eq :
    (cs : List (List FileEntry)) (r : Bool) → reject_changesets cs r ≡ (any (any case_only) cs || r)
unfolding reject_changesets
reject_changesets-eq [] r = refl
reject_changesets-eq (fs ∷ cs) r =
    ground (arith, reject_changesets-eq cs (reject_files fs r), reject_files-eq fs r)

or_false : (b : Bool) → ◌≡◌ {A = ℕ} (if b || false then 1 else 0) (if b then 1 else 0)
or_false true = refl
or_false false = refl

-- A push, neither pull nor strip, is refused exactly where some file of some changeset was renamed in case only.
case_only_renames-eq :
    (source : Text) (changesets : List (List FileEntry))
    → not_a_push source ≡ false
    → prevent_case_only_renames source changesets
      ≡ (if any (any case_only) changesets then 1 else 0)
unfolding prevent_case_only_renames
case_only_renames-eq source changesets push =
    rw push (rw (reject_changesets-eq changesets false) (or_false (any (any case_only) changesets)))

-- While the tree is closed or the service does not answer, a push, neither pull nor strip, is let
-- in exactly where the description of the tip holds the magic words.
pub treeclosure_closed :
    (source : Text) (answer : TreeStatus) (description : Text)
    → not_a_push source ≡ false
    → (answer ≡ unreachable) ⊎ (answer ≡ status (codes "closed"))
    → (treeclosure source answer description ≡ 0) ↔ (contains description magicwords ≡ true)
unfolding treeclosure text_eq
treeclosure_closed source answer description push (inl e) = rw (push, e) (ground arith)
treeclosure_closed source answer description push (inr e) = rw (push, e) (ground arith)

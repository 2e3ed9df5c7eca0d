-- ===== src/Hooks/Guards.antt =====
-- single_head_per_branch.py, prevent_case_only_renames.py and treeclosure.py. Each hook answers 0
-- to let a push in and 1 to refuse it.
pub mod Refusals
use version_control_tools_fx.Base.{
  ℕ, ◌+◌, Bool, true, false, not, ◌&&◌, ◌||◌, List, [], ◌∷◌, map, Option, none, some, Text, codes,
  text_eq, starts_with, contains, is_space, leb, length, ◌==◌, if◌then◌else◌,
}

-- `source in (b"pull", b"strip")`
abbrev pub not_a_push : Text → Bool
not_a_push source = text_eq source (codes "pull") || text_eq source (codes "strip")

-- A head of a branch: whether it closes the branch, and whether it is hidden.
pub record Head : Type 0 where
  pub closesbranch : Bool
  pub hidden : Bool

-- The loop that fills `newheads`.
unfoldable pub newheads : List Head → List Head
newheads [] = []
newheads (h ∷ hs) =
    let rest = newheads hs in if h.closesbranch then rest else if h.hidden then rest else h ∷ rest

unfoldable pub single_head_branches : List (Text × List Head) → ℕ
unfolding newheads
single_head_branches [] = 0
single_head_branches ((branch, heads) ∷ branches) =
    let rest = single_head_branches branches in if leb 2 (length (newheads heads)) then 1 else rest

-- `hook` of single_head_per_branch.py
unfoldable pub single_head_per_branch : Text → List (Text × List Head) → ℕ
unfolding single_head_branches
single_head_per_branch source branchmap =
    if not_a_push source then 0 else single_head_branches branchmap

-- `bytes.lower`
abbrev pub lower_byte : ℕ → ℕ
lower_byte c = if leb b'A' c && leb c b'Z' then c + 32 else c

abbrev pub lower : Text → Text
lower t = map lower_byte t

-- A file of a changeset, and the path that it was renamed from, if any.
abbrev pub FileEntry : Type 0
FileEntry = Text × Option Text

-- The body of the inner loop, with `rejecting`.
abbrev pub reject_file : FileEntry → Bool → Bool
reject_file (f, none) rejecting = rejecting
reject_file (f, some source) rejecting =
    if text_eq (lower f) (lower source) then true else rejecting

unfoldable pub reject_files : List FileEntry → Bool → Bool
reject_files [] rejecting = rejecting
reject_files (f ∷ fs) rejecting = reject_files fs (reject_file f rejecting)

unfoldable pub reject_changesets : List (List FileEntry) → Bool → Bool
unfolding reject_files
reject_changesets [] rejecting = rejecting
reject_changesets (fs ∷ changesets) rejecting =
    reject_changesets changesets (reject_files fs rejecting)

-- `hook` of prevent_case_only_renames.py
unfoldable pub prevent_case_only_renames : Text → List (List FileEntry) → ℕ
unfolding reject_changesets
prevent_case_only_renames source changesets =
    if not_a_push source then 0 else if reject_changesets changesets false then 1 else 0

-- What the tree status service answers: an error, or `data["result"]["status"]`.
pub data TreeStatus : Type 0 where
  unreachable : TreeStatus
  status : Text → TreeStatus

abbrev pub magicwords : Text
magicwords = codes "CLOSED TREE"

-- The rest of a match of `a\S*=` behind the first letter.
unfoldable pub approval_rest : Text → Bool
approval_rest [] = false
approval_rest (c ∷ cs) =
    let rest = approval_rest cs in if c == b'=' then true else if is_space c then false else rest

-- `re.search(rb"a\S*=", t)`
unfoldable pub approval : Text → Bool
unfolding approval_rest
approval [] = false
approval (c ∷ cs) = (c == b'a' && approval_rest cs) || approval cs

-- `isPushAllowed`, with the description of the tip
unfoldable pub is_push_allowed : TreeStatus → Text → Bool
unfolding approval
is_push_allowed unreachable description = contains description magicwords
is_push_allowed (status t) description =
    let dlower = lower description in
    if text_eq t (codes "closed")
    then contains description magicwords
    else if text_eq t (codes "approval required")
    then approval dlower
      || (starts_with dlower (codes "back") || starts_with dlower (codes "revert"))
    else true

-- `hook` of treeclosure.py
unfoldable pub treeclosure : Text → TreeStatus → Text → ℕ
unfolding is_push_allowed
treeclosure source answer description =
    if not_a_push source then 0 else if is_push_allowed answer description then 0 else 1

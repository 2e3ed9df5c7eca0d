-- ===== src/Checkout.antt =====
-- hgext/robustcheckout/__init__.py: `robustcheckout`, the checks of its arguments (here), the calls
-- of `_docheckout` (Steps, Sanity, Failures, Attempt) and the names of the times that it reports.
-- `_docheckout` calls itself again where it retries: each call takes the next of a list of answers,
-- and where the list ends the run is said to be waiting.
pub mod Steps
pub mod Sanity
pub mod Failures
pub mod Attempt
pub mod Keep
pub mod Phases
pub mod Runs
pub mod Bounded
pub mod Report
pub mod Sane
pub mod Stored
pub mod Leaves
pub mod Wanted
pub mod Finished
pub mod Tests
use version_control_tools_fx.Base.{
  ℕ, Bool, true, false, not, ◌&&◌, ◌||◌, List, [], ◌∷◌, ◌++◌, Option, none, some, Text, codes, ltb,
  length, ◌==◌, if◌then◌else◌,
}
use version_control_tools_fx.Hooks.Roots.{member}
use version_control_tools_fx.Checkout.Steps.{
  Exception, abort, Disk, State, Step, next, again, raised,
}
use version_control_tools_fx.Checkout.Sanity.{is_hex, is_given}
use version_control_tools_fx.Checkout.Attempt.{Options, Answers, docheckout}

-- How a run ends, with the revision where it ends well.
pub data Run : Type 0 where
  finished : Text → State → Run
  failed : Exception → State → Run
  waiting : State → Run

-- The calls of `_docheckout`, one behind the other.
unfoldable pub run : Options → List Answers → State → Run
unfolding docheckout
run o [] s = waiting s
run o (a ∷ rest) s = elim (docheckout o a s) [
  | next rev s' ↦ finished rev s'
  | raised e s' ↦ failed e s'
  | again s' ↦ run o rest s'
]

-- `^[a-f0-9]+$`, which allows a line end behind the last character
abbrev pub hex_to_end : Text → Bool
hex_to_end [] = true
hex_to_end (c ∷ cs) =
    let rest = hex_to_end cs in if c == 10 then length cs == 0 else is_hex c && rest

-- The arguments are refused, with what is said.
unfoldable pub refuse_options : Options → Bool → Option Text
refuse_options o has_sparse =
    if not (is_given o.revision) && not (is_given o.branch)
    then some (codes "must specify one of --revision or --branch")
    else if is_given o.revision && is_given o.branch
    then some (codes "cannot specify both --revision and --branch")
    else if is_given o.revision
        && (ltb (length o.revision) 12 || ltb 40 (length o.revision) || not (hex_to_end o.revision))
    then some (codes "--revision must be a SHA-1 fragment 12-40 characters long")
    else if not (is_given o.sharebase)
    then some (codes "share base directory not defined; refusing to operate")
    else if is_given o.sparse_profile && not has_sparse
    then some (codes "sparse extension must be enabled to use --sparseprofile")
    else none

-- `record_op(name)`
unfoldable pub op_name : List Text → Text → Text
unfolding member
op_name behaviors name =
    let stores =
      if member (codes "remove-store") behaviors then name ++ codes "_rmstore" else name in
    if member (codes "remove-wdir") behaviors then stores ++ codes "_rmwdir" else stores

abbrev pub by_behavior : List Text → Text → Text → Text → Text
by_behavior behaviors b yes_name no_name = if member b behaviors then yes_name else no_name

-- The operations that are reported behind the run.
unfoldable pub overall_ops : List Text → List Text
unfolding op_name member
overall_ops bs =
    codes "overall"
    ∷ (if member (codes "clone") bs && member (codes "create-store") bs
        then op_name bs (codes "overall_clone")
          ∷ op_name bs (
              by_behavior bs (codes "sparse-update") (codes "overall_clone_sparsecheckout")
                (codes "overall_clone_fullcheckout"))
          ∷ []
        else if member (codes "pull") bs || member (codes "clone") bs
        then op_name bs (codes "overall_pull")
          ∷ op_name bs (
              by_behavior bs (codes "sparse-update") (codes "overall_pull_sparsecheckout")
                (codes "overall_pull_fullcheckout"))
          ∷ op_name bs (
              by_behavior bs (codes "empty-wdir") (codes "overall_pull_emptywdir")
                (codes "overall_pull_populatedwdir"))
          ∷ []
        else op_name bs (codes "overall_nopull")
          ∷ op_name bs (
              by_behavior bs (codes "sparse-update") (codes "overall_nopull_sparsecheckout")
                (codes "overall_nopull_fullcheckout"))
          ∷ op_name bs (
              by_behavior bs (codes "empty-wdir") (codes "overall_nopull_emptywdir")
                (codes "overall_nopull_populatedwdir"))
          ∷ [])

abbrev pub state_of : Run → State
state_of (finished rev s) = s
state_of (failed e s) = s
state_of (waiting s) = s

abbrev pub begin : Disk → State
begin d = record { disk = d; attempts = 1; behaviors = []; optimes = [] }

-- `robustcheckout`: the run, unless the arguments are refused, and the names of all times
unfoldable pub robustcheckout : Options → Bool → List Answers → Disk → Run × List Text
unfolding refuse_options run overall_ops
robustcheckout o has_sparse answers d = elim (refuse_options o has_sparse) [
  | some message ↦ (failed (abort message) (begin d), [])
  | none ↦
      let r = run o answers (begin d) in
      (r, (state_of r).optimes ++ overall_ops (state_of r).behaviors)
]

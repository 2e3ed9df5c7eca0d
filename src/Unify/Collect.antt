-- ===== src/Unify/Collect.antt =====
-- hgext/unifyrepo/__init__.py: the first passes of `unifyrepo` over the sources, which check them and
-- find for each node the push that it first came with. A node is written in hex throughout: `bin` and
-- `hex` only change how it is written.
use version_control_tools_fx.Base.{
  ℕ, suc, Bool, true, false, not, ◌&&◌, List, [], ◌∷◌, ◌++◌, map, Option, none, some, Text, text_eq,
  find, assign, ltb, if◌then◌else◌,
}
use version_control_tools_fx.Base.Result.{
  Error, Result, ok, err, abort, attribute_error, other_error, require, ◌>>=◌, ◌>>◌,
}
use version_control_tools_fx.Hooks.Roots.{member, add, difference, is_empty}
use version_control_tools_fx.Pushlog.Record.{Push}
use version_control_tools_fx.Unify.Settings.{Source}

-- A source repository: its nodes by revision, the pushes of its pushlog, if it has one, what a
-- revset answers, in the order of revisions, and the revisions of its heads.
pub record SourceRepo : Type 0 where
  pub nodes : List Text
  pub pushlog : Option (List Push)
  pub revs : Text → List ℕ
  pub headrevs : List ℕ

abbrev pub Sources : Type 0
Sources = List (Source × SourceRepo)

-- `hg.repository` for each source; the repositories stay as they are while the command runs
unfoldable pub open_all : (Text → Result SourceRepo) → List Source → Result Sources
open_all repository [] = ok []
open_all repository (s ∷ ss) = do
  repo ← repository s.path
  rest ← open_all repository ss
  ok ((s, repo) ∷ rest)

abbrev pub first_node : List Text → Option Text
first_node [] = none
first_node (n ∷ ns) = some n

-- `if c: raise e`
abbrev pub refuse_if : Bool → Error → Result (Unit {0})
refuse_if true e = err e
refuse_if false e = ok tt

-- All sources have the same revision 0, and a pushlog.
unfoldable pub check_rev0s : List Text → Sources → Result (List Text)
unfolding add member
check_rev0s rev0s [] = ok rev0s
check_rev0s rev0s ((s, repo) ∷ rest) = do
  node ← require other_error (first_node repo.nodes)
  refuse_if (not (is_empty rev0s) && not (member node rev0s)) abort
  pushlog ← require abort repo.pushlog
  check_rev0s (add node rev0s) rest

-- A node's push: `(when, source, rev, who, pushid)`.
pub record Info : Type 0 where
  pub when : ℕ
  pub source : Text
  pub rev : ℕ
  pub who : Text
  pub pushid : ℕ

abbrev pub PushInfo : Type 0
PushInfo = List (Text × Info)

-- `noderev`: the revision of a node
unfoldable pub position : Text → List Text → Option ℕ
position n [] = none
position n (m ∷ ms) =
    if text_eq n m then some 0 else elim (position n ms) [ none ↦ none | some k ↦ some (suc k) ]

-- `repo[node]`: the revision and the node in hex
abbrev pub resolve : List Text → Text → Option (ℕ × Text)
resolve log n = elim (position n log) [ none ↦ none | some rev ↦ some (rev, n) ]

-- The entry stays where its push is not later.
unfoldable pub take_earlier : Text → Info → PushInfo → PushInfo
unfolding find assign
take_earlier node info m = elim (find node m) [
  | none ↦ assign node info m
  | some current ↦ if ltb info.when current.when then assign node info m else m
]

-- The loop over the nodes of a push; a node that the repository has not is passed over.
unfoldable pub collect_nodes : Text → List Text → Push → List Text → PushInfo → PushInfo
unfolding position take_earlier
collect_nodes path known p [] m = m
collect_nodes path known p (n ∷ ns) m = elim (position n known) [
  | none ↦ collect_nodes path known p ns m
  | some rev ↦ collect_nodes path known p ns (
      take_earlier n
        (record { when = p.when; source = path; rev = rev; who = p.user; pushid = p.pushid }) m)
]

unfoldable pub collect_pushes : Text → List Text → List Push → PushInfo → PushInfo
unfolding collect_nodes
collect_pushes path known [] m = m
collect_pushes path known (p ∷ ps) m =
    collect_pushes path known ps (collect_nodes path known p p.nodes m)

-- `nodepushinfo`
unfoldable pub collect : Sources → PushInfo → Result PushInfo
unfolding collect_pushes
collect [] m = ok m
collect ((s, repo) ∷ rest) m = do
  pushes ← require attribute_error repo.pushlog
  collect rest (collect_pushes s.path repo.nodes pushes m)

-- `allnodes`
unfoldable pub allnodes : Sources → List Text
allnodes [] = []
allnodes ((s, repo) ∷ rest) = repo.nodes ++ allnodes rest

-- Each node must have a push: `missingpl`.
unfoldable pub collected : Sources → Result PushInfo
unfolding collect allnodes difference
collected srcs = do
  m ← collect srcs []
  if is_empty (difference (allnodes srcs) (map (λ e. e.0) m)) then ok m else err abort

-- ===== src/Pushlog/Repair.antt =====
-- `verify`, which compares the pushlog with the repository, and `handledestroyed`, which makes it
-- follow after a strip. `repo[node]` is the argument `resolve`, as for `recordpush`; nodes are
-- compared in hex.
pub mod Joined
pub mod Agreement
pub mod Deleted
pub mod Updated
pub mod Destroyed
pub mod Clear
pub mod Reordered
use version_control_tools_fx.Base.{
  ℕ, ◌+◌, Bool, true, false, not, ◌&&◌, ◌||◌, List, [], ◌∷◌, ◌++◌, map, Option, none, some, Text,
  text_eq, any, ltb, leb, ◌==◌, if◌then◌else◌,
}
use version_control_tools_fx.Base.Result.{Result, ok, err, other_error, ◌>>=◌}
use version_control_tools_fx.Pushlog.Db.{ChangesetRow, Db}
use version_control_tools_fx.Pushlog.Record.{is_known, Push}
use version_control_tools_fx.Pushlog.Lookup.{Repo, order_by, filter_rows}
use version_control_tools_fx.Pushlog.Select.{all_pushes}
use version_control_tools_fx.Pushlog.Query.{pushes}

-- The warnings of `verify`.
pub data Warning : Type 0 where
  no_nodes : ℕ → Warning
  does_not_exist : ℕ → Text → Warning
  not_in_pushlog : Text → Warning

-- `ret`, `seennodes`, `pushcount` and the warnings
pub record Verified : Type 0 where
  pub ret : ℕ
  pub seennodes : List Text
  pub pushcount : ℕ
  pub warnings : List Warning

abbrev pub warn : Warning → Verified → Verified
warn w v = record v { ret = 1; warnings = v.warnings ++ w ∷ [] }

abbrev pub see : Text → Verified → Verified
see node v = record v { seennodes = v.seennodes ++ node ∷ [] }

unfoldable pub verify_nodes : (Text → Option (ℕ × Text)) → ℕ → List Text → Verified → Verified
verify_nodes resolve id [] v = v
verify_nodes resolve id (n ∷ ns) v =
    let v' = if is_known resolve n then v else warn (does_not_exist id n) v in
    verify_nodes resolve id ns (see n v')

-- A push without nodes is warned of, and no error.
abbrev pub verify_push : (Text → Option (ℕ × Text)) → Push → Verified → Verified
verify_push resolve p v = elim p.nodes [
  | [] ↦ record v { warnings = v.warnings ++ no_nodes p.pushid ∷ [] }
  | n ∷ ns ↦ verify_nodes resolve p.pushid (n ∷ ns) v
]

unfoldable pub verify_pushes : (Text → Option (ℕ × Text)) → List Push → Verified → Verified
unfolding verify_nodes
verify_pushes resolve [] v = v
verify_pushes resolve (p ∷ ps) v =
    let counted = record v { pushcount = v.pushcount + 1 } in
    verify_pushes resolve ps (verify_push resolve p counted)

-- The loop over the revisions of the repository, as their nodes.
unfoldable pub verify_revs : List Text → Verified → Verified
verify_revs [] v = v
verify_revs (n ∷ ns) v =
    verify_revs ns (if any (text_eq n) v.seennodes then v else warn (not_in_pushlog n) v)

-- `verify`, for the nodes of the repository
unfoldable pub verify : (Text → Option (ℕ × Text)) → List Text → Repo → Db → Result Verified
unfolding pushes verify_pushes verify_revs
verify resolve revs r db = do
  ps ← pushes r all_pushes db
  let start : Verified = record { ret = 0; seennodes = []; pushcount = 0; warnings = [] }
  ok (verify_revs revs (verify_pushes resolve ps start))

-- `ORDER BY pushid, rev`
abbrev pub row_before : ChangesetRow → ChangesetRow → Bool
row_before c d = ltb c.pushid d.pushid || (c.pushid == d.pushid && leb c.rev d.rev)

-- `deletes` and `revupdates`
unfoldable pub deletes : (Text → Option (ℕ × Text)) → List ChangesetRow → List Text
deletes resolve [] = []
deletes resolve (c ∷ cs) =
    let rest = deletes resolve cs in
    elim (resolve c.node) [ none ↦ c.node ∷ rest | some ctx ↦ rest ]

unfoldable pub revupdates : (Text → Option (ℕ × Text)) → List ChangesetRow → List (Text × ℕ)
revupdates resolve [] = []
revupdates resolve (c ∷ cs) =
    let rest = revupdates resolve cs in
    elim (resolve c.node) [
      | none ↦ rest
      | some ctx ↦ if ctx.0 == c.rev then rest else (c.node, ctx.0) ∷ rest
    ]

-- `DELETE FROM changesets WHERE node = ?`, for each
unfoldable pub delete_nodes : List Text → List ChangesetRow → List ChangesetRow
unfolding filter_rows
delete_nodes [] cs = cs
delete_nodes (n ∷ ns) cs =
    delete_nodes ns (filter_rows (λ (c : ChangesetRow). not (text_eq c.node n)) cs)

-- `UPDATE changesets SET rev=? WHERE node=?` for a node that is there, which fails where another row has the revision
abbrev pub has_rev : Text → ℕ → ChangesetRow → Bool
has_rev node rev c = not (text_eq c.node node) && c.rev == rev

abbrev pub set_rev : Text → ℕ → ChangesetRow → ChangesetRow
set_rev node rev c = if text_eq c.node node then record c { rev = rev } else c

unfoldable pub update_revs : List (Text × ℕ) → List ChangesetRow → Result (List ChangesetRow)
update_revs [] cs = ok cs
update_revs ((node, rev) ∷ us) cs =
    let rest = update_revs us (map (set_rev node rev) cs) in
    if any (has_rev node rev) cs then err other_error else rest

-- `handledestroyed`
unfoldable pub handledestroyed : (Text → Option (ℕ × Text)) → Db → Result Db
unfolding order_by deletes revupdates delete_nodes update_revs
handledestroyed resolve db = do
  let rows = order_by row_before db.changesets
  cs ← update_revs (revupdates resolve rows) (delete_nodes (deletes resolve rows) db.changesets)
  ok (record db { changesets = cs })

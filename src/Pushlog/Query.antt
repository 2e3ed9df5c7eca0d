-- ===== src/Pushlog/Query.antt =====
-- `pushes`: the join, and the loop that makes pushes of its rows.
pub mod Ordered
pub mod Listing
pub mod Refused
pub mod Reversed
use Prim.Native.Nat.{min}
use version_control_tools_fx.Base.{
  ℕ, Bool, true, false, not, ◌&&◌, ◌||◌, List, [], ◌∷◌, ◌++◌, map, Option, none, some, Text,
  text_eq, any, take, drop, ltb, leb, length, ◌==◌, if◌then◌else◌,
}
use version_control_tools_fx.Base.Result.{
  Result, ok, err, value_error, attribute_error, other_error, ◌>>=◌, ◌>>◌,
}
use version_control_tools_fx.Pushlog.Db.{PushRow, ChangesetRow, Db, lastpushid}
use version_control_tools_fx.Pushlog.Record.{Push, unset}
use version_control_tools_fx.Pushlog.Lookup.{
  insert_by, order_by, filter_rows, pushid_of, rev_before, id_before, nodes_of, pushfromid,
  pushfromnode, last_push_id_replicated, push_count, Repo,
}
use version_control_tools_fx.Pushlog.Select.{Args, all_pushes, Window, window, inner, is_set}

-- A row of the join; the revision is not read again.
pub record JoinRow : Type 0 where
  pub pushid : ℕ
  pub who : Text
  pub when : ℕ
  pub node : Option Text

abbrev pub join_row : PushRow → Option Text → JoinRow
join_row p node = record { pushid = p.id; who = p.user; when = p.date; node = node }

abbrev pub rows_of : PushRow → List Text → List JoinRow
rows_of p [] = join_row p none ∷ []
rows_of p (n ∷ ns) = join_row p (some n) ∷ map (λ (t : Text). join_row p (some t)) ns

-- The left join, in the order of the ids and then of the revisions: ids are unique, so the rows of
-- the inner query stay in their order.
unfoldable pub join_rows : Bool → List PushRow → List ChangesetRow → List JoinRow
unfolding nodes_of
join_rows reverse [] cs = []
join_rows reverse (p ∷ ps) cs = rows_of p (nodes_of reverse p.id cs) ++ join_rows reverse ps cs

-- `branch and self.repo[node].branch() != branch`, the rows that are not skipped
unfoldable pub on_branch : Repo → Option Text → List JoinRow → Result (List JoinRow)
on_branch r none rows = ok rows
on_branch r (some []) rows = ok rows
on_branch r (some (c ∷ cs)) [] = ok []
on_branch r (some (c ∷ cs)) (row ∷ rows) = do
  b ← r.branch_of row.node
  rest ← on_branch r (some (c ∷ cs)) rows
  ok (if text_eq b (c ∷ cs) then row ∷ rest else rest)

abbrev pub listed : Option Text → List Text
listed none = []
listed (some n) = n ∷ []

abbrev pub new_push : JoinRow → Push
new_push row = record {
  pushid = row.pushid;
  user = row.who;
  when = row.when;
  nodes = listed row.node;
}

-- The loop that yields the pushes, with `current`; `lastid` is its id. Only the first row of a
-- push can be without a node.
unfoldable pub group : Option Push → List JoinRow → List Push
group none [] = []
group (some p) [] = p ∷ []
group none (row ∷ rows) = group (some (new_push row)) rows
group (some p) (row ∷ rows) =
    let same = group (some (record p { nodes = p.nodes ++ listed row.node })) rows in
    let next = group (some (new_push row)) rows in if row.pushid == p.pushid then same else p ∷ next

-- An `OFFSET` without a `LIMIT` is a syntax error.
abbrev pub check_offset : Args → Result (Unit {0})
check_offset a = elim a.limit [
  | some n ↦ ok tt
  | none ↦ elim a.offset [ some n ↦ err other_error | none ↦ ok tt ]
]

-- `pushes`
unfoldable pub pushes : Repo → Args → Db → Result (List Push)
unfolding window inner join_rows on_branch group
pushes r a db = do
  w ← window r a db
  check_offset a
  rows ← on_branch r a.branch (join_rows a.reverse (inner a w db) db.changesets)
  ok (group none rows)

-- ===== src/Pushlog/Lookup.antt =====
-- `pushfromnode`, `pushfromid`, `last_push_id_replicated` and `push_count`, and how rows are ordered
-- and filtered. The caches of `cache_data_for_nodes` are not modelled: they hold what these answer.
use Prim.Native.Nat.{min}
use version_control_tools_fx.Base.{
  ℕ, Bool, false, List, [], ◌∷◌, map, Option, none, some, Text, text_eq, leb, length, ◌==◌,
  if◌then◌else◌,
}
use version_control_tools_fx.Base.Result.{Result}
use version_control_tools_fx.Pushlog.Db.{PushRow, ChangesetRow, Db, lastpushid}

-- What the repository answers: `repo.lookup` as a node in hex, `lookupbranch`, the branch of a
-- node or of the working directory, and the replicated data's push id.
pub record Repo : Type 0 where
  pub lookup : Text → Result Text
  pub lookupbranch : Text → Bool
  pub branch_of : Option Text → Result Text
  pub replicated_push_id : Option ℕ

-- `ORDER BY`: insertion by an order.
unfoldable pub insert_by : {A : Type 0} → (A → A → Bool) → A → List A → List A
insert_by before x [] = x ∷ []
insert_by before x (y ∷ ys) =
    let rest = insert_by before x ys in if before x y then x ∷ y ∷ ys else y ∷ rest

unfoldable pub order_by : {A : Type 0} → (A → A → Bool) → List A → List A
unfolding insert_by
order_by before [] = []
order_by before (x ∷ xs) = insert_by before x (order_by before xs)

unfoldable pub filter_rows : {A : Type 0} → (A → Bool) → List A → List A
filter_rows p [] = []
filter_rows p (x ∷ xs) = let rest = filter_rows p xs in if p x then x ∷ rest else rest

-- `SELECT pushid FROM changesets WHERE node=?`
unfoldable pub pushid_of : Text → List ChangesetRow → Option ℕ
pushid_of node [] = none
pushid_of node (c ∷ cs) = if text_eq c.node node then some c.pushid else pushid_of node cs

abbrev pub rev_before : Bool → ChangesetRow → ChangesetRow → Bool
rev_before reverse c d = if reverse then leb d.rev c.rev else leb c.rev d.rev

abbrev pub id_before : Bool → PushRow → PushRow → Bool
id_before reverse p q = if reverse then leb q.id p.id else leb p.id q.id

-- The nodes that are joined to a push, by revision.
unfoldable pub nodes_of : Bool → ℕ → List ChangesetRow → List Text
unfolding order_by filter_rows
nodes_of reverse id cs =
    map (λ (c : ChangesetRow). c.node)
      (order_by (rev_before reverse) (filter_rows (λ (c : ChangesetRow). c.pushid == id) cs))

-- `pushfromid`: a push without changesets is joined to one row without a node.
unfoldable pub pushfromid : ℕ → List PushRow → List ChangesetRow → Option (ℕ × List (Option Text))
unfolding nodes_of
pushfromid id [] cs = none
pushfromid id (p ∷ ps) cs =
    let rest = pushfromid id ps cs in
    if p.id == id
    then elim (nodes_of false id cs) [
      | [] ↦ some (id, none ∷ [])
      | n ∷ ns ↦ some (id, map (λ (t : Text). some t) (n ∷ ns))
    ]
    else rest

-- `pushfromnode`, the push's id
unfoldable pub pushfromnode : Text → Db → Option ℕ
unfolding pushid_of pushfromid
pushfromnode node db = elim (pushid_of node db.changesets) [
  | none ↦ none
  | some id ↦ elim (pushfromid id db.pushlog db.changesets) [ none ↦ none | some p ↦ some p.0 ]
]

-- `last_push_id_replicated`
unfoldable pub last_push_id_replicated : Repo → Db → ℕ
last_push_id_replicated r db = elim r.replicated_push_id [
  | none ↦ lastpushid db
  | some id ↦ min id (lastpushid db)
]

-- `push_count`
abbrev pub push_count : Db → ℕ
push_count db = length db.pushlog

-- ===== src/Pushlog/Feed/Worker.antt =====
-- feed.py: `pushes_worker`, the data structure of the JSON views.
use version_control_tools_fx.Base.{
  ℕ, Bool, List, [], ◌∷◌, Option, none, some, Text, find, assign, if◌then◌else◌,
}
use version_control_tools_fx.Base.Result.{Result, Error, ok, err, ◌>>=◌}
use version_control_tools_fx.Base.Decimal.{decimal}
use version_control_tools_fx.Pushlog.Feed.{Entry}

-- What a changeset says of itself, with the predecessors that the obsolescence store has of it.
pub record Change : Type 0 where
  pub hex : Text
  pub author : Text
  pub desc : Text
  pub branch : Text
  pub parents : List Text
  pub tags : List Text
  pub files : List Text
  pub predecessors : List Text

-- What the repository answers for a node: a changeset that is shown, one that is hidden, a hidden
-- one that the unfiltered repository has not either, or another error.
pub data Context : Type 0 where
  shown hidden : Change → Context
  lost : Context
  refused : Error → Context

-- A changeset in the answer: its node, or with `full` also its metadata and its precursors, where
-- there are any.
pub data ChangeData : Type 0 where
  node_only : Text → ChangeData
  metadata : Change → Option (List Text) → ChangeData

-- The data of a push; `obsoletechangesets` is a key that may be missing.
pub record PushData : Type 0 where
  pub user : Text
  pub date : ℕ
  pub changesets : List ChangeData
  pub obsoletechangesets : Option (List ChangeData)

abbrev pub PushMap : Type 0
PushMap = List (Text × PushData)

abbrev precursors : Bool → List Text → Option (List Text)
precursors haveobs [] = none
precursors haveobs (p ∷ ps) = if haveobs then some (p ∷ ps) else none

-- `node`, as it is inserted
abbrev pub change_data : Bool → Bool → Text → Change → ChangeData
change_data haveobs full node c =
    if full then metadata c (precursors haveobs c.predecessors) else node_only node

abbrev pub opened : Entry → PushData
opened e = record { user = e.user; date = e.date; changesets = []; obsoletechangesets = none }

abbrev pub or_opened : Entry → Option PushData → PushData
or_opened e none = opened e
or_opened e (some p) = p

-- `insert(0, node)` on the list of the key, which `setdefault` makes
abbrev pub in_front : ChangeData → Option (List ChangeData) → Option (List ChangeData)
in_front n none = some (n ∷ [])
in_front n (some ns) = some (n ∷ ns)

abbrev pub add_node : Bool → Bool → Text → Context → PushData → Result PushData
add_node haveobs full node (shown c) p =
    ok (record p { changesets = change_data haveobs full node c ∷ p.changesets })
add_node haveobs full node (hidden c) p = ok (record p {
  obsoletechangesets = in_front (change_data haveobs full node c) p.obsoletechangesets;
})
add_node haveobs full node lost p = ok p
add_node haveobs full node (refused e) p = err e

-- The loop of `pushes_worker`, with `pushes`.
unfoldable pub pushes_worker :
    (Text → Context) → Bool → Bool → List Entry → PushMap → Result PushMap
unfolding find assign decimal
pushes_worker lookup haveobs full [] pushes = ok pushes
pushes_worker lookup haveobs full (e ∷ es) pushes = do
  let key = decimal e.pushid
  p ← add_node haveobs full e.node (lookup e.node) (or_opened e (find key pushes))
  pushes_worker lookup haveobs full es (assign key p pushes)

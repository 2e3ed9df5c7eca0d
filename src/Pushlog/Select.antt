-- ===== src/Pushlog/Select.antt =====
-- The arguments of `pushes` and the inner query that it builds from them.
use version_control_tools_fx.Base.{
  ℕ, Bool, true, false, ◌&&◌, List, [], ◌∷◌, Option, none, some, Text, text_eq, any, take, drop,
  ltb, leb, ◌==◌, if◌then◌else◌,
}
use version_control_tools_fx.Base.Result.{
  Result, ok, err, value_error, attribute_error, ◌>>=◌, ◌>>◌,
}
use version_control_tools_fx.Pushlog.Db.{PushRow, Db, lastpushid}
use version_control_tools_fx.Pushlog.Lookup.{
  order_by, filter_rows, pushid_of, id_before, pushfromnode, last_push_id_replicated, Repo,
}

-- The arguments of `pushes`.
pub record Args : Type 0 where
  pub start_id : Option ℕ
  pub start_id_exclusive : Bool
  pub end_id : Option ℕ
  pub end_id_exclusive : Bool
  pub reverse : Bool
  pub limit : Option ℕ
  pub offset : Option ℕ
  pub users : List Text
  pub start_time : Option ℕ
  pub start_time_exclusive : Bool
  pub end_time : Option ℕ
  pub end_time_exclusive : Bool
  pub start_node : Option Text
  pub start_node_exclusive : Bool
  pub end_node : Option Text
  pub end_node_exclusive : Bool
  pub nodes : List Text
  pub branch : Option Text
  pub only_replicated : Bool

-- The defaults.
abbrev pub all_pushes : Args
all_pushes = record {
  start_id = none;
  start_id_exclusive = false;
  end_id = none;
  end_id_exclusive = false;
  reverse = false;
  limit = none;
  offset = none;
  users = [];
  start_time = none;
  start_time_exclusive = false;
  end_time = none;
  end_time_exclusive = false;
  start_node = none;
  start_node_exclusive = false;
  end_node = none;
  end_node_exclusive = false;
  nodes = [];
  branch = none;
  only_replicated = false;
}

abbrev pub id_or_zero : Option ℕ → ℕ
id_or_zero none = 0
id_or_zero (some n) = n

-- The lower bound and whether it is exclusive, and the same above.
unfoldable pub start_bound : Repo → Args → Db → Result (ℕ × Bool)
unfolding pushfromnode
start_bound r a db = elim a.start_node [
  | none ↦ ok (id_or_zero a.start_id, a.start_id_exclusive)
  | some n ↦ do node ← r.lookup n; ok (id_or_zero (pushfromnode node db), a.start_node_exclusive)
]

unfoldable pub end_bound : Repo → Args → Db → Result (Option ℕ × Bool)
unfolding pushfromnode
end_bound r a db = elim a.end_node [
  | none ↦ ok (a.end_id, a.end_id_exclusive)
  | some n ↦ do
    node ← r.lookup n
    elim (pushfromnode node db) [
      | none ↦ err attribute_error
      | some id ↦ ok (some id, a.end_node_exclusive)
    ]
]

abbrev pub is_set : {A : Type 0} → Option A → Bool
is_set none = false
is_set (some a) = true

-- The checks of the arguments.
unfoldable pub check_args : Repo → Args → Result (Unit {0})
check_args r a =
    if is_set a.start_id && is_set a.start_node
    then err value_error
    else if is_set a.end_id && is_set a.end_node
    then err value_error
    else elim a.branch [
      | none ↦ ok tt
      | some [] ↦ ok tt
      | some (c ∷ cs) ↦ if r.lookupbranch (c ∷ cs) then ok tt else err value_error
    ]

-- `value > bound` or `value >= bound`; no bound holds always
abbrev pub above : Option ℕ → Bool → ℕ → Bool
above none exclusive n = true
above (some b) exclusive n = if exclusive then ltb b n else leb b n

abbrev pub under : Option ℕ → Bool → ℕ → Bool
under none exclusive n = true
under (some b) exclusive n = if exclusive then ltb n b else leb n b

abbrev pub one_of_users : List Text → Text → Bool
one_of_users [] user = true
one_of_users (u ∷ us) user = any (text_eq user) (u ∷ us)

-- `id=(SELECT …)`, which is not true where nothing is selected
abbrev pub is_id : ℕ → Option ℕ → Bool
is_id id none = false
is_id id (some k) = id == k

abbrev pub one_of_ids : List (Option ℕ) → ℕ → Bool
one_of_ids [] id = true
one_of_ids (k ∷ ks) id = any (is_id id) (k ∷ ks)

-- The nodes of the filter, looked up.
unfoldable pub node_ids : Repo → Db → List Text → Result (List (Option ℕ))
unfolding pushid_of
node_ids r db [] = ok []
node_ids r db (n ∷ ns) = do
  node ← r.lookup n
  rest ← node_ids r db ns
  ok (pushid_of node db.changesets ∷ rest)

-- The bounds and filters of the inner query.
pub record Window : Type 0 where
  pub start : ℕ × Bool
  pub end : Option ℕ × Bool
  pub ids : List (Option ℕ)
  pub max_push_id : ℕ

unfoldable pub window : Repo → Args → Db → Result Window
unfolding check_args start_bound end_bound node_ids last_push_id_replicated
window r a db = do
  check_args r a
  start ← start_bound r a db
  end ← end_bound r a db
  ids ← node_ids r db a.nodes
  ok (record {
    start = start;
    end = end;
    ids = ids;
    max_push_id = if a.only_replicated then last_push_id_replicated r db else lastpushid db;
  })

-- The `WHERE` of the inner query.
unfoldable pub selects : Args → Window → PushRow → Bool
selects a w p =
    above (some w.start.0) w.start.1 p.id
    && under w.end.0 w.end.1 p.id
    && above a.start_time a.start_time_exclusive p.date
    && under a.end_time a.end_time_exclusive p.date
    && one_of_users a.users p.user
    && one_of_ids w.ids p.id
    && leb p.id w.max_push_id

abbrev pub take_limit : Option ℕ → List PushRow → List PushRow
take_limit none ps = ps
take_limit (some n) ps = take n ps

abbrev pub drop_offset : Option ℕ → List PushRow → List PushRow
drop_offset none ps = ps
drop_offset (some n) ps = drop n ps

-- The inner query.
unfoldable pub inner : Args → Window → Db → List PushRow
unfolding selects order_by filter_rows
inner a w db =
    take_limit a.limit
      (drop_offset a.offset (order_by (id_before a.reverse) (filter_rows (selects a w) db.pushlog)))

-- ===== src/Pushlog/Feed.antt =====
-- feed.py: `PushlogQuery.do_query`, `pushlog_changenav` and `pushlog_changelist`. The repository is
-- unfiltered for the query; what the web view sees of it is an argument. Below it `pushes_worker`
-- (Worker), `do_parse_date` (Dates), `pushlog_setup` (Setup), the JSON pages and the Atom feed.
pub mod Pages
pub mod Navigation
pub mod Changelist
pub mod Runs
pub mod Worker
pub mod Collected
pub mod Dates
pub mod Iso
pub mod Setup
pub mod Owned
pub mod Json
pub mod Atom
mod Tests
use Prim.Native.Nat.{◌/◌, max, min}
use version_control_tools_fx.Base.{
  ℕ, suc, zero, ◌+◌, ◌-◌, ◌*◌, Bool, true, false, not, ◌&&◌, List, [], ◌∷◌, ◌++◌, Option, none,
  some, Text, length, ◌==◌, if◌then◌else◌,
}
use version_control_tools_fx.Base.Result.{Result, ok, err, index_error, ◌>>=◌}
use version_control_tools_fx.Base.Decimal.{int}
use version_control_tools_fx.Pushlog.Db.{Db}
use version_control_tools_fx.Pushlog.Record.{Push}
use version_control_tools_fx.Pushlog.Lookup.{Repo, push_count, filter_rows, last_push_id_replicated}
use version_control_tools_fx.Pushlog.Select.{Args, all_pushes}
use version_control_tools_fx.Pushlog.Query.{pushes}

abbrev pub pushes_per_page : ℕ
pushes_per_page = 10

-- `querystart` and `queryend` with their values
pub data QueryStart : Type 0 where
  date : ℕ → QueryStart
  changeset : Text → QueryStart
  pushid : Text → QueryStart
  count : ℕ → QueryStart

pub data QueryEnd : Type 0 where
  to_date : ℕ → QueryEnd
  to_changeset : Text → QueryEnd
  to_pushid : Text → QueryEnd
  newest : QueryEnd

-- The parameters of a query.
pub record PushlogQuery : Type 0 where
  pub tipsonly : Bool
  pub page : ℕ
  pub querystart : QueryStart
  pub queryend : QueryEnd
  pub userquery : List Text
  pub changesetquery : List Text
  pub branch : Option Text

pub record Entry : Type 0 where
  pub pushid : ℕ
  pub user : Text
  pub date : ℕ
  pub node : Text

-- What `do_query` fills in.
pub record Found : Type 0 where
  pub entries : List Entry
  pub totalentries : ℕ
  pub lastpushid : ℕ

abbrev pub entries_at : Push → List Text → List Entry
entries_at p [] = []
entries_at p (n ∷ ns) =
    record { pushid = p.pushid; user = p.user; date = p.when; node = n } ∷ entries_at p ns

-- `[push.nodes[0]]`, where there is one, or all nodes
abbrev pub tip_of : Bool → List Text → List Text
tip_of true (n ∷ ns) = n ∷ []
tip_of tipsonly ns = ns

unfoldable pub page_entries : Bool → List Push → List Entry
page_entries tipsonly [] = []
page_entries tipsonly (p ∷ ps) = entries_at p (tip_of tipsonly p.nodes) ++ page_entries tipsonly ps

-- The same without the test for nodes.
abbrev pub strict_tip_of : Bool → List Text → Result (List Text)
strict_tip_of true [] = err index_error
strict_tip_of tipsonly ns = ok (tip_of tipsonly ns)

unfoldable pub range_entries : Bool → List Push → Result (List Entry)
range_entries tipsonly [] = ok []
range_entries tipsonly (p ∷ ps) = do
  ns ← strict_tip_of tipsonly p.nodes
  rest ← range_entries tipsonly ps
  ok (entries_at p ns ++ rest)

abbrev pub is_count : PushlogQuery → Option ℕ
is_count q = elim q.querystart [
  | count n ↦ elim q.userquery [ [] ↦ elim q.changesetquery [ [] ↦ some n | _ ↦ none ] | _ ↦ none ]
  | _ ↦ none
]

-- A page of so many pushes. SQLite reads a negative offset as 0, as the subtraction does.
abbrev pub page_args : PushlogQuery → ℕ → Args
page_args q n = record all_pushes {
  offset = some ((q.page - 1) * n);
  limit = some n;
  reverse = true;
  branch = q.branch;
  only_replicated = true;
}

abbrev with_start : QueryStart → Args → Result Args
with_start (date t) a = ok (record a { start_time = some t })
with_start (changeset n) a = ok (record a { start_node = some n })
with_start (pushid t) a = do n ← int t; ok (record a { start_id = some n })
with_start (count n) a = ok a

abbrev with_end : QueryEnd → Args → Result Args
with_end (to_date t) a = ok (record a { end_time = some t })
with_end (to_changeset n) a = ok (record a { end_node = some n })
with_end (to_pushid t) a = do n ← int t; ok (record a { end_id = some n })
with_end newest a = ok a

-- The arguments of the other queries.
unfoldable pub range_args : PushlogQuery → Result Args
unfolding int
range_args q = do
  a ← with_start q.querystart (record all_pushes {
    reverse = true;
    start_id_exclusive = true;
    start_time_exclusive = true;
    end_time_exclusive = true;
    start_node_exclusive = true;
    users = q.userquery;
    nodes = q.changesetquery;
    branch = q.branch;
    only_replicated = true;
  })
  with_end q.queryend a

-- `do_query`
unfoldable pub do_query : Repo → PushlogQuery → Db → Result Found
unfolding pushes page_entries range_entries range_args last_push_id_replicated
do_query r q db = elim (is_count q) [
  | some n ↦ do
    ps ← pushes r (page_args q n) db
    ok (record {
      entries = page_entries q.tipsonly ps;
      totalentries = push_count db;
      lastpushid = last_push_id_replicated r db;
    })
  | none ↦ do
    a ← range_args q
    ps ← pushes r a db
    entries ← range_entries q.tipsonly ps
    ok (record { entries = entries; totalentries = 1; lastpushid = last_push_id_replicated r db })
]

-- The fields of the navigation.
pub data Label : Type 0 where
  first_page prev_page next_page last_page : Label
  numbered : Label

pub record Link : Type 0 where
  pub page : ℕ
  pub label : Label

abbrev pub link : Label → ℕ → Link
link l n = record { page = n; label = l }

-- `int(ceil(totalentries / 10.0))`
abbrev pub numpages : ℕ → ℕ
numpages total = (total + 9) / pushes_per_page

unfoldable pub links_from : ℕ → ℕ → List Link
links_from start zero = []
links_from start (suc k) = link numbered start ∷ links_from (suc start) k

-- `pushlog_changenav`, for a page from 1 on; half a page is 5
unfoldable pub pushlog_changenav : ℕ → ℕ → List Link
unfolding links_from
pushlog_changenav total page =
    let start = max 1 (page - 5) in
    let end = min (numpages total + 1) (page + 5) in
    (if page == 1 then [] else link first_page 1 ∷ link prev_page (page - 1) ∷ [])
    ++ links_from start (end - start)
    ++ (if page == numpages total
        then []
        else link next_page (page + 1) ∷ link last_page (numpages total) ∷ [])

-- ===== src/Pushlog/Feed/Setup.antt =====
-- feed.py: `pushlog_setup`, `PushlogQuery.description` and the view `pushes`.
use version_control_tools_fx.Base.{
  ℕ, Bool, true, false, ◌||◌, List, [], ◌∷◌, ◌++◌, Option, none, some, String, Text, codes, text_eq,
  strip, join, ltb, ◌==◌, if◌then◌else◌,
}
use version_control_tools_fx.Base.Result.{Result, ok, err, value_error, other_error, ◌>>=◌}
use version_control_tools_fx.Base.Decimal.{int, read_digits}
use version_control_tools_fx.Pushlog.Db.{Db}
use version_control_tools_fx.Pushlog.Lookup.{Repo}
use version_control_tools_fx.Pushlog.Feed.{
  QueryStart, date, changeset, pushid, count, QueryEnd, to_date, to_changeset, to_pushid, newest,
  PushlogQuery, Found, pushes_per_page, is_count, do_query,
}
use version_control_tools_fx.Pushlog.Feed.Worker.{Context, PushMap, pushes_worker}
use version_control_tools_fx.Pushlog.Feed.Dates.{Calendar, do_parse_date}

-- The parameters of a request: the last value of a name, and all of them.
pub record Params : Type 0 where
  pub get : String → Option Text
  pub getall : String → List Text

-- `int(text)`, where a number below 0 counts as 0: with either page a query begins at the newest push,
-- and either version is refused.
abbrev pub signed : Text → Result ℕ
signed [] = err value_error
signed (c ∷ cs) = if c == b'-' then (read_digits true 0 cs >>= λ n. ok 0) else int (c ∷ cs)

unfoldable pub int_or_zero : Text → Result ℕ
int_or_zero t = signed (strip t)

-- `int(req.qsparams.get(b"node", b"1"))`, and 1 where that is no number
abbrev pub page_of : Option Text → ℕ
page_of none = 1
page_of (some t) = elim (int_or_zero t) [ ok n ↦ n | err e ↦ 1 ]

-- The start component: the first of three parameters that is there.
unfoldable pub query_start : Calendar → Params → Result QueryStart
unfolding do_parse_date
query_start cal p = elim (p.get "startdate") [
  | some t ↦ do d ← do_parse_date cal t; ok (date d)
  | none ↦ elim (p.get "fromchange") [
    | some t ↦ ok (changeset t)
    | none ↦ elim (p.get "startID") [ some t ↦ ok (pushid t) | none ↦ ok (count pushes_per_page) ]
  ]
]

unfoldable pub query_end : Calendar → Params → Result QueryEnd
unfolding do_parse_date
query_end cal p = elim (p.get "enddate") [
  | some t ↦ do d ← do_parse_date cal t; ok (to_date d)
  | none ↦ elim (p.get "tochange") [
    | some t ↦ ok (to_changeset t)
    | none ↦ elim (p.get "endID") [ some t ↦ ok (to_pushid t) | none ↦ ok newest ]
  ]
]

-- The version of the format; any other is a response 500.
abbrev pub is_one : Option Text → Bool
is_one none = false
is_one (some t) = text_eq t (codes "1")

abbrev pub check_version : ℕ → Result ℕ
check_version n = if ltb n 1 || ltb 2 n then err other_error else ok n

unfoldable pub formatversion : Option Text → Result ℕ
unfolding int_or_zero
formatversion none = ok 1
formatversion (some t) = elim (int_or_zero t) [ err e ↦ err other_error | ok n ↦ check_version n ]

-- A query that has run.
pub record Ready : Type 0 where
  pub query : PushlogQuery
  pub version : ℕ
  pub found : Found

-- `pushlog_setup`
unfoldable pub pushlog_setup : Calendar → Repo → Db → Params → Result Ready
unfolding query_start query_end formatversion do_query int_or_zero
pushlog_setup cal r db p = do
  start ← query_start cal p
  end ← query_end cal p
  version ← formatversion (p.get "version")
  let query : PushlogQuery = record {
    tipsonly = is_one (p.get "tipsonly");
    page = page_of (p.get "node");
    querystart = start;
    queryend = end;
    userquery = p.getall "user";
    changesetquery = p.getall "changeset";
    branch = p.get "branch";
  }
  found ← do_query r query db
  ok (record { query = query; version = version; found = found })

abbrev pub is_some : Option Text → Bool
is_some none = false
is_some (some t) = true

-- The JSON views: the version of the format, the data and `lastpushid`.
pub record PushesAnswer : Type 0 where
  pub version : ℕ
  pub pushes : PushMap
  pub lastpushid : ℕ

-- `pushes`, with what the repository answers for a node and whether it has obsolescence markers
unfoldable pub pushes_view :
    Calendar → Repo → Db → (Text → Context) → Bool → Params → Result PushesAnswer
unfolding pushlog_setup pushes_worker
pushes_view cal r db lookup haveobs p = do
  q ← pushlog_setup cal r db p
  m ← pushes_worker lookup haveobs (is_some (p.get "full")) q.found.entries []
  ok (record { version = q.version; pushes = m; lastpushid = q.found.lastpushid })

-- What `description` says of the start, the end, the users and the changesets.
abbrev start_bits : Calendar → QueryStart → List Text
start_bits cal (date t) = (codes "after " ++ cal.isoformat t) ∷ []
start_bits cal (changeset n) = (codes "after changeset " ++ n) ∷ []
start_bits cal (pushid n) = (codes "after push ID " ++ n) ∷ []
start_bits cal (count n) = []

abbrev end_bits : Calendar → QueryEnd → List Text
end_bits cal (to_date t) = (codes "before " ++ cal.isoformat t) ∷ []
end_bits cal (to_changeset n) = (codes "up to and including changeset " ++ n) ∷ []
end_bits cal (to_pushid n) = (codes "up to and including push ID " ++ n) ∷ []
end_bits cal newest = []

abbrev joined_bits : Text → Text → List Text → List Text
joined_bits before between [] = []
joined_bits before between (t ∷ ts) = (before ++ join between (t ∷ ts)) ∷ []

-- `PushlogQuery.description`
unfoldable pub description : Calendar → PushlogQuery → Text
unfolding join
description cal q = elim (is_count q) [
  | some n ↦ []
  | none ↦
      codes "Changes pushed "
      ++ join (codes ", ") (
          start_bits cal q.querystart
          ++ end_bits cal q.queryend
          ++ joined_bits (codes "by user ") (codes " or ") q.userquery
          ++ joined_bits (codes "with changeset ") (codes " and ") q.changesetquery)
]

-- ===== src/Pushlog/Feed/Tests.antt =====
-- The JSON of two pushes, and a date.
use version_control_tools_fx.Base.{
  ℕ, ◌≡◌, refl, true, false, List, [], ◌∷◌, none, Text, codes, text_eq, find, any, All, ◌==◌, arith,
  if◌then◌else◌,
}
use version_control_tools_fx.Base.Result.{ok, err, value_error}
use version_control_tools_fx.Base.Decimal.{decimal}
use version_control_tools_fx.Pushlog.Db.{PushRow, Db}
use version_control_tools_fx.Pushlog.Db.Rows.{IsPushlog}
use version_control_tools_fx.Pushlog.Lookup.{Repo, last_push_id_replicated}
use version_control_tools_fx.Pushlog.Feed.{Entry}
use version_control_tools_fx.Pushlog.Feed.Worker.{
  Change, Context, shown, hidden, lost, PushMap, pushes_worker,
}
use version_control_tools_fx.Pushlog.Feed.Collected.{own, data_of, pushes_worker-eq-data}
use version_control_tools_fx.Pushlog.Feed.Dates.{DateFields, Calendar, do_parse_date}
use version_control_tools_fx.Pushlog.Feed.Iso.{iso_text, do_parse_date-iso_text}
use version_control_tools_fx.Pushlog.Feed.Setup.{pushes_view}
use version_control_tools_fx.Pushlog.Feed.Json.{page_params, page_rows, item_of, pushes_view-page}

abbrev calendar : Calendar
calendar = record { mktime = λ d. ok d.day; parse = λ t. err value_error; isoformat = λ n. [] }

abbrev leap_day : DateFields
leap_day = record { year = 2024; month = 2; day = 29; hour = 23; minute = 59; second = 7 }

date_example : do_parse_date calendar (iso_text leap_day) ≡ ok 29
date_example = do_parse_date-iso_text calendar leap_day (record {
  year = omega arith;
  month = omega arith;
  day = omega arith;
  hour = omega arith;
  minute = omega arith;
  second = omega arith;
})

abbrev change : Text → Change
change t = record {
  hex = t;
  author = codes "u";
  desc = [];
  branch = codes "default";
  parents = [];
  tags = [];
  files = [];
  predecessors = codes "ff" ∷ [];
}

-- `bb` is hidden, and `cc` is gone.
abbrev context : Text → Context
context t =
    if text_eq t (codes "bb")
    then hidden (change t)
    else if text_eq t (codes "cc")
    then lost
    else shown (change t)

abbrev three : List Entry
three =
    record { pushid = 2; user = codes "v"; date = 5; node = codes "cc" }
    ∷ record { pushid = 2; user = codes "v"; date = 5; node = codes "bb" }
    ∷ record { pushid = 1; user = codes "u"; date = 3; node = codes "aa" }
    ∷ []

worker_example :
    (m : PushMap) × (pushes_worker context true true three [] ≡ ok m)
    × ((k : ℕ) → find (decimal k) m ≡ data_of context true true (own k three))
unfolding text_eq
worker_example = pushes_worker-eq-data context true true three (refl, (refl, (refl, tt)))

abbrev repo : Repo
repo = record {
  lookup = λ n. ok n;
  lookupbranch = λ b. false;
  branch_of = λ n. ok (codes "default");
  replicated_push_id = none;
}

abbrev two : Db
two = record {
  pushlog =
      record { id = 1; user = codes "u"; date = 3 }
      ∷ record { id = 2; user = codes "v"; date = 5 }
      ∷ [];
  changesets =
      record { pushid = 1; rev = 0; node = codes "aa" }
      ∷ record { pushid = 2; rev = 1; node = codes "bb" }
      ∷ record { pushid = 2; rev = 2; node = codes "cc" }
      ∷ [];
  sequence = 2;
}

two-IsPushlog : IsPushlog two
unfolding text_eq
two-IsPushlog = record {
  ids = (refl, (refl, tt));
  below = (omega arith, (omega arith, tt));
  nodes = (refl, (refl, (refl, tt)));
  revs = (refl, (refl, (refl, tt)));
  owned = (refl, (refl, (refl, tt)));
}

json_example :
    (m : PushMap) × (pushes_view calendar repo two (λ t. shown (change t)) false (page_params 1)
      ≡ ok (record { version = 1; pushes = m; lastpushid = last_push_id_replicated repo two }))
    × All (λ (p : PushRow). find (decimal p.id) m ≡ item_of two.changesets p) (page_rows repo two 1)
    × ((k : ℕ)
        → any (λ (p : PushRow). p.id == k) (page_rows repo two 1) ≡ false
        → find (decimal k) m ≡ none)
json_example = pushes_view-page calendar repo two change false 1 two-IsPushlog

-- ===== src/Pushlog/Feed/Atom.antt =====
-- feed.py: `pushlog_feed` and `feedentrygenerator`, the data of the Atom feed.
use version_control_tools_fx.Base.{
  ℕ, Bool, List, [], ◌∷◌, ◌++◌, map, Text, codes, ends_with, if◌then◌else◌,
}
use version_control_tools_fx.Base.Result.{Result, ok, ◌>>=◌}
use version_control_tools_fx.Pushlog.Db.{Db}
use version_control_tools_fx.Pushlog.Lookup.{Repo, filter_rows}
use version_control_tools_fx.Pushlog.Feed.{Entry}
use version_control_tools_fx.Pushlog.Feed.Dates.{Calendar}
use version_control_tools_fx.Pushlog.Feed.Setup.{Params, pushlog_setup}

-- What is asked: `isotime`, the time of now in the same form, whether a node names a revision, the
-- files of a node, and `xmlescape`.
pub record Site : Type 0 where
  pub isotime : ℕ → Text
  pub now : Text
  pub isrevsymbol : Text → Bool
  pub files : Text → List Text
  pub xmlescape : Text → Text
  pub apppath : Text
  pub advertisedbaseurl : Text

pub record FeedEntry : Type 0 where
  pub node : Text
  pub date : Text
  pub user : Text
  pub urlbase : Text
  pub url : Text
  pub files : List Text

pub record FeedData : Type 0 where
  pub urlbase : Text
  pub url : Text
  pub date : Text
  pub entries : List FeedEntry

-- `req.apppath or b"/"`, with a slash at its end
abbrev pub feed_url : Text → Text
feed_url [] = codes "/"
feed_url (c ∷ cs) = if ends_with (c ∷ cs) (codes "/") then c ∷ cs else (c ∷ cs) ++ codes "/"

abbrev pub feed_date : Site → List Entry → Text
feed_date s [] = s.now
feed_date s (e ∷ es) = s.isotime e.date

abbrev pub feed_entry : Site → Entry → FeedEntry
feed_entry s e = record {
  node = e.node;
  date = s.isotime e.date;
  user = s.xmlescape e.user;
  urlbase = s.advertisedbaseurl;
  url = feed_url s.apppath;
  files = s.files e.node;
}

-- `pushlog_feed`
unfoldable pub pushlog_feed : Site → Calendar → Repo → Db → Params → Result FeedData
unfolding pushlog_setup filter_rows ends_with
pushlog_feed s cal r db p = do
  q ← pushlog_setup cal r db p
  ok (record {
    urlbase = s.advertisedbaseurl;
    url = feed_url s.apppath;
    date = feed_date s q.found.entries;
    entries =
        map (feed_entry s) (filter_rows (λ (e : Entry). s.isrevsymbol e.node) q.found.entries);
  })

-- ===== src/Config/Filter.antt =====
-- `Config.filter` of config.py. Python's `re` is not modelled: a compiled pattern is a function
-- that answers a match with the keys of its `groupdict`, in order.
pub mod Decision
use version_control_tools_fx.Base.{
  Bool, true, false, not, ◌&&◌, ◌||◌, List, [], ◌∷◌, Option, none, some, Text, codes, find,
  if◌then◌else◌,
}
use version_control_tools_fx.Base.Result.{Result, ok, err, stop_iteration}

abbrev pub Matcher : Type 0
Matcher = Text → Option (List Text)

-- `RepoFilterResult`
pub record RepoFilterResult : Type 0 where
  pub passes_filter : Bool
  pub rule : Text

-- The attributes that `filter` reads.
pub record Filters : Type 0 where
  pub has_filters : Bool
  pub path_includes : List (Text × Text)
  pub path_excludes : List (Text × Text)
  pub include_regex : Option Matcher
  pub exclude_regex : Option Matcher

-- `regex.match(repo) if regex else None`
unfoldable pub try_match : Option Matcher → Text → Option (List Text)
try_match none repo = none
try_match (some m) repo = m repo

-- `RepoFilterResult(passes, next(iter(match.groupdict().keys())))`
unfoldable pub first_group : Bool → List Text → Result RepoFilterResult
first_group passes [] = err stop_iteration
first_group passes (name ∷ names) = ok (record { passes_filter = passes; rule = name })

-- The regular expressions' part; the matches are of the include and the exclude rules.
unfoldable pub filter_by_regex : Option (List Text) → Option (List Text) → Result RepoFilterResult
unfolding first_group
filter_by_regex (some included) none = first_group true included
filter_by_regex included (some excluded) = first_group false excluded
filter_by_regex none none = ok (record { passes_filter = false; rule = codes "noinclude" })

-- `Config.filter`
unfoldable pub filter : Filters → Text → Result RepoFilterResult
unfolding filter_by_regex try_match find
filter c repo =
    if not c.has_filters
    then ok (record { passes_filter = true; rule = codes "nofilter" })
    else elim (find repo c.path_includes) [
      | some name ↦ ok (record { passes_filter = true; rule = name })
      | none ↦ elim (find repo c.path_excludes) [
        | some name ↦ ok (record { passes_filter = false; rule = name })
        | none ↦ filter_by_regex (try_match c.include_regex repo) (try_match c.exclude_regex repo)
      ]
    ]

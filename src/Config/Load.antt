-- ===== src/Config/Load.antt =====
-- `Config.__init__` of config.py: the rewrites and the replication rules, from the sections that
-- the parser has read.
pub mod Answers
use version_control_tools_fx.Base.{
  Bool, true, false, not, ◌&&◌, ◌||◌, List, [], ◌∷◌, ◌++◌, Option, none, some, Text, String, codes,
  text_eq, split_on, join, assign, map, if◌then◌else◌,
}
use version_control_tools_fx.Base.Result.{Result, ok, err, value_error, other_error, ◌>>=◌}
use version_control_tools_fx.Config.Rewrite.{Rules}
use version_control_tools_fx.Config.Filter.{Matcher, Filters}

-- What `RawConfigParser` and `re` answer: the items of a section, or none if there is no such
-- section, and a compiled pattern, or none if it is refused.
pub record Sections : Type 0 where
  pub items : String → Option (List (Text × Text))
  pub compile : Text → Option Matcher

pub record Config : Type 0 where
  pub path_rewrites : Rules
  pub pull_url_rewrites : Rules
  pub public_url_rewrites : Rules
  pub replication_path_rewrites : Rules
  pub filters : Filters

-- `create_namedgroup`
unfoldable pub create_namedgroup : Text → Text → Text
create_namedgroup name rule = codes "(?P<" ++ (name ++ (codes ">" ++ (rule ++ codes ")")))

-- The four collections that the loop over the rules fills.
pub record RuleSet : Type 0 where
  pub re_includes : List (Text × Text)
  pub re_excludes : List (Text × Text)
  pub includes : List (Text × Text)
  pub excludes : List (Text × Text)

abbrev pub no_rules : RuleSet
no_rules = record { re_includes = []; re_excludes = []; includes = []; excludes = [] }

-- `a, b = text.split(c)`
unfoldable pub unpack_two : List Text → Result (Text × Text)
unpack_two (a ∷ b ∷ []) = ok (a, b)
unpack_two _ = err value_error

-- What one parsed rule adds.
unfoldable pub add_rule : Text → Text → Text → Text → RuleSet → Result RuleSet
add_rule behaviour name ruletype rule s =
    let include = text_eq behaviour (codes "include") in
    if text_eq ruletype (codes "re")
    then ok (
        if include
        then record s { re_includes = s.re_includes ++ (name, rule) ∷ [] }
        else record s { re_excludes = s.re_excludes ++ (name, rule) ∷ [] })
    else if text_eq ruletype (codes "path")
    then ok (
        if include
        then record s { includes = assign rule name s.includes }
        else record s { excludes = assign rule name s.excludes })
    else err other_error

-- The body of the loop over the section's items.
unfoldable pub read_rule : Text → Text → RuleSet → Result RuleSet
unfolding unpack_two add_rule
read_rule key value s = do
  (behaviour, name) ← unpack_two (split_on b'.' key)
  (ruletype, rule) ← unpack_two (split_on b':' value)
  add_rule behaviour name ruletype rule s

unfoldable pub read_rules : List (Text × Text) → RuleSet → Result RuleSet
unfolding read_rule
read_rules [] s = ok s
read_rules ((key, value) ∷ items) s = do s' ← read_rule key value s; read_rules items s'

-- `re.compile(pattern) if pattern else None`
unfoldable pub compile_rules : Sections → List (Text × Text) → Result (Option Matcher)
unfolding create_namedgroup
compile_rules p [] = ok none
compile_rules p (r ∷ rs) =
    elim (p.compile
      (join (codes "|") (map (λ (x : Text × Text). create_namedgroup x.0 x.1) (r ∷ rs)))) [
        | none ↦ err other_error
        | some m ↦ ok (some m)
      ]

abbrev pub is_empty : List (Text × Text) → Bool
is_empty [] = true
is_empty (x ∷ xs) = false

abbrev pub is_set : Option Matcher → Bool
is_set none = false
is_set (some m) = true

-- The rules, compiled.
unfoldable pub build_filters : Sections → RuleSet → Result Filters
unfolding compile_rules
build_filters p s = do
  included ← compile_rules p s.re_includes
  excluded ← compile_rules p s.re_excludes
  ok (record {
    has_filters =
        not (is_empty s.includes)
        || not (is_empty s.excludes)
        || is_set included
        || is_set excluded;
    path_includes = s.includes;
    path_excludes = s.excludes;
    include_regex = included;
    exclude_regex = excluded;
  })

-- The attributes that `filter` never reads without filters are empty here.
abbrev pub no_filters : Filters
no_filters = record {
  has_filters = false;
  path_includes = [];
  path_excludes = [];
  include_regex = none;
  exclude_regex = none;
}

unfoldable pub load_filters : Sections → Result Filters
unfolding read_rules build_filters
load_filters p = elim (p.items "replicationrules") [
  | none ↦ ok no_filters
  | some items ↦ do s ← read_rules items no_rules; build_filters p s
]

-- The items of a section of rewrites, or none.
unfoldable pub section_rules : Sections → String → Rules
section_rules p name = elim (p.items name) [ none ↦ [] | some items ↦ items ]

-- `Config.__init__`, once the file has been read
unfoldable pub load : Sections → Result Config
unfolding section_rules load_filters
load p = do
  filters ← load_filters p
  ok (record {
    path_rewrites = section_rules p "path_rewrites";
    pull_url_rewrites = section_rules p "pull_url_rewrites";
    public_url_rewrites = section_rules p "public_url_rewrites";
    replication_path_rewrites = section_rules p "replicationpathrewrites";
    filters = filters;
  })

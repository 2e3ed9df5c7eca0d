-- ===== src/Unify/Settings.antt =====
-- hgext/unifyrepo/__init__.py: `unifyconfig`. The file is what Mercurial's parser makes of it, its
-- sections with their items.
use version_control_tools_fx.Base.{
  List, [], ◌∷◌, map, Option, none, some, Text, codes, text_eq, find, sorted_texts, leb, ◌-◌, ℕ,
  ◌&&◌, if◌then◌else◌,
}
use version_control_tools_fx.Base.Result.{Result, ok, err, abort, require, ◌>>=◌}

abbrev pub Section : Type 0
Section = List (Text × Text)

-- A source repository, as `sources` yields it.
pub record Source : Type 0 where
  pub name : Text
  pub path : Text
  pub pullrevs : Text
  pub bookmark : Option Text

pub record UnifyConfig : Type 0 where
  pub sections : List (Text × Section)
  pub stagepath : Text
  pub destpath : Text

-- `get(section, name)`, refused where it is not set or empty
unfoldable pub defined : Text → Section → Result Text
unfolding find
defined k s = elim (find k s) [
  | none ↦ err abort
  | some [] ↦ err abort
  | some (c ∷ cs) ↦ ok (c ∷ cs)
]

-- `unifyconfig.__init__`
unfoldable pub unifyconfig : List (Text × Section) → Result UnifyConfig
unfolding find defined
unifyconfig c = do
  global ← require abort (find (codes "GLOBAL") c)
  stage ← defined (codes "stagepath") global
  dest ← defined (codes "destpath") global
  ok (record { sections = c; stagepath = stage; destpath = dest })

-- `name.upper()` on ASCII
abbrev pub upper : Text → Text
upper = map (λ (c : ℕ). if leb 97 c && leb c 122 then c - 32 else c)

abbrev pub get_or : Text → Text → Section → Text
get_or k default s = elim (find k s) [ none ↦ default | some v ↦ v ]

abbrev pub get_bookmark : Text → Section → Option Text
get_bookmark name s = elim (find (codes "nobookmark") s) [
  | some v ↦ none
  | none ↦ some (get_or (codes "bookmark") name s)
]

-- the entry of a section in `sources`
unfoldable pub source : Text → Section → Result Source
unfolding find defined
source name s = do
  path ← defined (codes "path") s
  ok (record {
    name = name;
    path = path;
    pullrevs = get_or (codes "pullrevs") (codes "0:tip") s;
    bookmark = get_bookmark name s;
  })

unfoldable pub named_sources : List (Text × Section) → List Text → Result (List Source)
unfolding find source
named_sources c [] = ok []
named_sources c (name ∷ names) = if text_eq (upper name) name then named_sources c names else (do
  section ← require abort (find name c)
  s ← source name section
  rest ← named_sources c names
  ok (s ∷ rest))

-- `sources`, all that it yields
unfoldable pub sources : UnifyConfig → Result (List Source)
unfolding named_sources sorted_texts
sources conf = named_sources conf.sections (sorted_texts (map (λ s. s.0) conf.sections))

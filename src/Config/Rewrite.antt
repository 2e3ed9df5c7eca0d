-- ===== src/Config/Rewrite.antt =====
-- The four rewriting methods of `Config`: each takes the first rule whose source is a prefix.
pub mod Laws
use version_control_tools_fx.Base.{
  ℕ, zero, suc, ◌-◌, List, [], ◌∷◌, ◌++◌, Option, none, some, Text, starts_with, length, drop,
  if◌then◌else◌,
}

-- `(source, dest)`, as `items` of a config section lists them
abbrev pub Rules : Type 0
Rules = List (Text × Text)

-- `text.replace(src, dst)` for `src` that is not empty: the matches are taken from the left and do
-- not overlap. The first argument counts the characters of a match that are still to be skipped.
unfoldable pub replace_from : ℕ → Text → Text → Text → Text
unfolding starts_with
replace_from skip src dst [] = []
replace_from (suc skip) src dst (c ∷ cs) = replace_from skip src dst cs
replace_from zero src dst (c ∷ cs) =
    let hit = starts_with (c ∷ cs) src in
    let rest = replace_from (if hit then length src - 1 else 0) src dst cs in
    if hit then dst ++ rest else c ∷ rest

-- Python puts `dst` in front of each character and at the end where `src` is empty.
unfoldable pub interleave : Text → Text → Text
interleave dst [] = dst
interleave dst (c ∷ cs) = dst ++ (c ∷ interleave dst cs)

unfoldable pub replace : Text → Text → Text → Text
unfolding replace_from interleave
replace t [] dst = interleave dst t
replace t (s ∷ ss) dst = replace_from 0 (s ∷ ss) dst t

-- `Config.parse_wire_repo_path`
unfoldable pub parse_wire_repo_path : Rules → Text → Text
parse_wire_repo_path [] path = path
parse_wire_repo_path ((source, dest) ∷ rules) path =
    if starts_with path source then replace path source dest else parse_wire_repo_path rules path

-- `Config.get_replication_path_rewrite`
unfoldable pub get_replication_path_rewrite : Rules → Text → Option Text
get_replication_path_rewrite [] path = none
get_replication_path_rewrite ((source, dest) ∷ rules) path =
    if starts_with path source
    then some (dest ++ drop (length source) path)
    else get_replication_path_rewrite rules path

-- `Config.get_pull_url_from_repo_path`
unfoldable pub get_pull_url_from_repo_path : Rules → Text → Option Text
get_pull_url_from_repo_path [] path = none
get_pull_url_from_repo_path ((source, dest) ∷ rules) path =
    if starts_with path source
    then some (dest ++ drop (length source) path)
    else get_pull_url_from_repo_path rules path

-- `Config.get_public_url_from_wire_path`
unfoldable pub get_public_url_from_wire_path : Rules → Text → Option Text
get_public_url_from_wire_path [] path = none
get_public_url_from_wire_path ((source, dest) ∷ rules) path =
    if starts_with path source
    then some (dest ++ drop (length source) path)
    else get_public_url_from_wire_path rules path

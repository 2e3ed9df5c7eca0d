-- ===== src/Config/Filter/Decision.antt =====
-- Which repositories pass `Config.filter`.
use version_control_tools_fx.Base.{
  ◌≡◌, Bool, true, false, not, ◌&&◌, ◌||◌, Option, none, some, Text, find, arith,
}
use version_control_tools_fx.Base.Result.{ok}
use version_control_tools_fx.Config.Filter.{RepoFilterResult, Filters, try_match, filter}

abbrev pub is_some {ℓ} : {A : Type ℓ} → Option A → Bool
is_some none = false
is_some (some a) = true

-- No filters at all, or an exact include, or else no exact exclude, a match of the include rules and
-- none of the exclude rules.
abbrev pub allowed : Filters → Text → Bool
allowed c repo =
    not c.has_filters
    || is_some (find repo c.path_includes)
    || (not (is_some (find repo c.path_excludes))
        && is_some (try_match c.include_regex repo)
        && not (is_some (try_match c.exclude_regex repo)))

-- An answered filter passes a repository where it is allowed.
pub filter-eq-allowed :
    (c : Filters) (repo : Text) {r : RepoFilterResult}
    → filter c repo ≡ ok r
    → r.passes_filter ≡ allowed c repo
unfolding filter
filter-eq-allowed c repo h = ground arith

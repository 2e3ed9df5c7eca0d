-- ===== src/Unify/Choose.antt =====
-- hgext/unifyrepo/__init__.py: the pass of `unifyrepo` that keeps the changesets of `pullrevs` and finds
-- the bookmarks.
use version_control_tools_fx.Base.{
  ℕ, suc, Bool, List, [], ◌∷◌, ◌++◌, Option, none, some, Text, assign, any, ltb, length, ◌==◌,
  if◌then◌else◌,
}
use version_control_tools_fx.Base.Result.{Result, ok, err, abort, ◌>>=◌}
use version_control_tools_fx.Hooks.Roots.{member}
use version_control_tools_fx.Pushlog.Lookup.{filter_rows}
use version_control_tools_fx.Unify.Collect.{Sources, PushInfo}

abbrev pub in_revs : List ℕ → ℕ → Bool
in_revs revs r = any (λ k. k == r) revs

-- The nodes of the chosen revisions, from the revision `r` on.
unfoldable pub nodes_at : List ℕ → ℕ → List Text → List Text
nodes_at revs r [] = []
nodes_at revs r (n ∷ ns) =
    let rest = nodes_at revs (suc r) ns in if in_revs revs r then n ∷ rest else rest

-- `books[bookmark] = node` for each of them
unfoldable pub bookmark_all : Option Text → List Text → List (Text × Text) → List (Text × Text)
unfolding assign
bookmark_all none ns books = books
bookmark_all (some []) ns books = books
bookmark_all (some (c ∷ cs)) [] books = books
bookmark_all (some (c ∷ cs)) (n ∷ ns) books =
    bookmark_all (some (c ∷ cs)) ns (assign (c ∷ cs) n books)

-- `sourcenodes` and `books`
unfoldable pub choose : Sources → List (Text × Text) → Result (List Text × List (Text × Text))
unfolding filter_rows nodes_at bookmark_all
choose [] books = ok ([], books)
choose ((s, repo) ∷ rest) books =
    let revs = repo.revs s.pullrevs in
    let nodes = nodes_at revs 0 repo.nodes in
    if ltb 1 (length (filter_rows (in_revs revs) repo.headrevs)) then err abort else (do
      (more, books') ← choose rest (bookmark_all s.bookmark nodes books)
      ok (nodes ++ more, books'))

-- `nodepushinfo` without the other nodes
unfoldable pub keep_nodes : List Text → PushInfo → PushInfo
unfolding filter_rows member
keep_nodes nodes = filter_rows (λ e. member e.0 nodes)

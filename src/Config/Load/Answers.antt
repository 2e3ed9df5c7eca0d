-- ===== src/Config/Load/Answers.antt =====
-- From the section `[replicationrules]` to the answer of `Config.filter`.
use mathlib.Core.Path.{fun_ext}
use version_control_tools_fx.Base.{
  String, ◌∙◌, ◌≡◌, refl, sym, true, false, List, [], ◌∷◌, ◌++◌, some, Text, codes, text_eq,
  text_eq_iff, split_on, find, assign, find-assign, arith,
}
use version_control_tools_fx.Base.Result.{ok, ◌>>=◌, >>=-eq-ok, bind_assoc}
use version_control_tools_fx.Config.Filter.{Filters, filter}
use version_control_tools_fx.Config.Load.{
  Sections, RuleSet, no_rules, read_rule, read_rules, build_filters, load_filters, compile_rules,
  is_empty,
}

-- The items are read in order.
read_rules-append :
    (xs ys : List (Text × Text)) (s : RuleSet)
    → read_rules (xs ++ ys) s ≡ (read_rules xs s >>= λ t. read_rules ys t)
unfolding read_rules
read_rules-append [] ys s = refl
read_rules-append ((k, v) ∷ xs) ys s =
    rw (fun_ext (read_rules-append xs ys))
      (sym (bind_assoc (read_rule k v s) (read_rules xs) (read_rules ys)))

-- What the compiled filters keep of the rules.
build_filters-paths :
    (p : Sections) (s : RuleSet) {c : Filters}
    → build_filters p s ≡ ok c
    → (c.path_includes ≡ s.includes)
      × (c.path_excludes ≡ s.excludes)
      × ((is_empty s.includes ≡ false) → c.has_filters ≡ true)
      × ((is_empty s.excludes ≡ false) → c.has_filters ≡ true)
unfolding build_filters
build_filters-paths p s h =
    let (i, hi, h') = >>=-eq-ok (compile_rules p s.re_includes) _ h in
    let (x, hx, h'') = >>=-eq-ok (compile_rules p s.re_excludes) _ h' in ground arith

assign-not_empty : (k v : Text) (m : List (Text × Text)) → is_empty (assign k v m) ≡ false
unfolding assign
assign-not_empty k v [] = refl
assign-not_empty k v ((j, w) ∷ m) = ground arith

find-assign_self : (k v : Text) (m : List (Text × Text)) → find k (assign k v m) ≡ some v
find-assign_self k v m = ground (arith, find-assign k k v m, text_eq_iff k k)

-- A rule of the form `<behaviour>.<name> = path:<repo>`.
pub record IsPathRule (behaviour : String) (name repo key value : Text) : Type 0 where
  pub key_parts : split_on b'.' key ≡ codes behaviour ∷ name ∷ []
  pub value_parts : split_on b':' value ≡ codes "path" ∷ repo ∷ []

read_rule-include :
    {name repo : Text} (key value : Text) (t : RuleSet)
    → IsPathRule "include" name repo key value
    → read_rule key value t ≡ ok (record t { includes = assign repo name t.includes })
unfolding read_rule text_eq
read_rule-include key value t h = rw (h.key_parts, h.value_parts)

-- The rules of a section whose last item is `(key, value)`.
read_last :
    (earlier : List (Text × Text)) (key value : Text) {s : RuleSet}
    → read_rules (earlier ++ (key, value) ∷ []) no_rules ≡ ok s
    → (t : RuleSet) × (read_rule key value t ≡ ok s)
unfolding read_rules
read_last earlier key value h =
    let joined = rw (read_rules-append earlier ((key, value) ∷ []) no_rules) at h in
    let (t, _, last) = >>=-eq-ok (read_rules earlier no_rules) _ joined in
    let (s', read, same) = >>=-eq-ok (read_rule key value t) _ last in (t, read ∙ same)

filter_included :
    {name : Text} (repo : Text) (c : Filters)
    → c.has_filters ≡ true
    → find repo c.path_includes ≡ some name
    → filter c repo ≡ ok (record { passes_filter = true; rule = name })
unfolding filter
filter_included repo c on found = rw (on, found)

-- An exact include rule that stands last in the section lets its repository pass, under its own
-- name, whatever the rules before it say, where the section is read without an error.
pub filter-last_include :
    (p : Sections) (earlier : List (Text × Text)) (key value : Text) {name repo : Text}
    {c : Filters}
    → IsPathRule "include" name repo key value
    → p.items "replicationrules" ≡ some (earlier ++ (key, value) ∷ [])
    → load_filters p ≡ ok c
    → filter c repo ≡ ok (record { passes_filter = true; rule = name })
unfolding load_filters
filter-last_include p earlier key value {name} {repo} {c} is items h =
    let read = rw (items, load_filters) at h in
    let (s, hs, built) = >>=-eq-ok (read_rules (earlier ++ (key, value) ∷ []) no_rules) _ read in
    let (t, last) = read_last earlier key value hs in
    let kept = build_filters-paths p s built in
    let includes : s.includes ≡ assign repo name t.includes =
      cc (last, read_rule-include key value t is) in
    filter_included repo c (kept.2 (rw includes (assign-not_empty repo name t.includes)))
      (rw (kept.0, includes) (find-assign_self repo name t.includes))

-- ===== src/Bootstrap/Schedule.antt =====
-- `hgweb` of bootstrap.py: which clones are scheduled, and which messages are kept for later.
use text.Mathlib.Text.{◌==◌ as str_eq}
use version_control_tools_fx.Base.{
  Bool, true, false, List, [], ◌∷◌, ◌++◌, Option, none, some, Text, find, assign, String,
  if◌then◌else◌,
}
use version_control_tools_fx.Base.Result.{Result, Error, ok, key_error, require, ◌>>=◌}
use version_control_tools_fx.Message.{Payload}
use version_control_tools_fx.Config.Filter.{RepoFilterResult, Filters, filter}
use version_control_tools_fx.Hooks.Roots.{member, add, difference}

-- What the audit says of a repository.
pub data Report : Type 0 where
  filtered_by : Text → Report
  no_sync_message : Report
  clone_failed extra_failed : Error → Report

-- `outputdata`
abbrev pub Audit : Type 0
Audit = List (Text × List Report)

abbrev pub listed {ℓ} : {A : Type ℓ} → Option (List A) → List A
listed none = []
listed (some xs) = xs

-- `d[k].append(x)` on a dict of lists
abbrev pub append_at : {A : Type 0} → Text → A → List (Text × List A) → List (Text × List A)
append_at k x d = assign k (listed (find k d) ++ x ∷ []) d

abbrev pub admit : RepoFilterResult → Text → List Text × Audit → List Text × Audit
admit result r (repos, audit) =
    if result.passes_filter
    then (add r repos, audit)
    else (repos, append_at r (filtered_by result.rule) audit)

-- The repositories that pass the filters, and the audit of the others.
unfoldable pub filter_all : Filters → List Text → List Text × Audit → Result (List Text × Audit)
unfolding filter add find assign
filter_all f [] state = ok state
filter_all f (r ∷ rs) state = do result ← filter f r; filter_all f rs (admit result r state)

-- The arguments of `clone_repo`.
pub record Clone : Type 0 where
  pub path : Text
  pub requirements : List Text
  pub hgrc : Option Text
  pub heads : List Text

-- `repositories_to_clone`, `clone_futures_repo_mapping` in the order of the scheduling, and
-- `extra_messages`.
pub record Schedule : Type 0 where
  pub to_clone : List Text
  pub clones : List Clone
  pub extra : List (Text × List Payload)

-- The test for a synchronization of this bootstrap.
unfoldable pub is_bootstrap_sync : String → Payload → Result Bool
is_bootstrap_sync name p =
    if str_eq name "hg-repo-sync-2" then require key_error p.bootstrap else ok false

unfoldable pub read_clone : Text → Payload → Result Clone
read_clone path p = do
  requirements ← require key_error p.requirements
  hgrc ← require key_error p.hgrc
  heads ← require key_error p.heads
  ok (record { path = path; requirements = requirements; hgrc = hgrc; heads = heads })

-- The clone is scheduled, and the repository taken from those that wait for one.
unfoldable pub add_clone : Bool → Text → Payload → Schedule → Result Schedule
unfolding read_clone difference
add_clone false path p s = ok s
add_clone true path p s = do
  c ← read_clone path p
  ok (record s { clones = s.clones ++ c ∷ []; to_clone = difference s.to_clone (path ∷ []) })

-- A message of a repository that is not cloned yet.
unfoldable pub schedule_clone : String → Text → Payload → Schedule → Result Schedule
unfolding is_bootstrap_sync add_clone
schedule_clone name path p s = do sync ← is_bootstrap_sync name p; add_clone sync path p s

-- Any other message is kept, unless the audit has its repository.
unfoldable pub keep_extra : Audit → Text → Payload → Schedule → Schedule
unfolding find assign
keep_extra audit path p s = elim (find path audit) [
  | some reports ↦ s
  | none ↦ record s { extra = append_at path p s.extra }
]

unfoldable pub schedule_named : Audit → String → Payload → Schedule → Result Schedule
unfolding schedule_clone keep_extra member
schedule_named audit name p s = do
  path ← require key_error p.path
  if member path s.to_clone then schedule_clone name path p s else ok (keep_extra audit path p s)

-- One message, with the audit of the filters.
unfoldable pub schedule : Audit → Payload → Schedule → Result Schedule
unfolding schedule_named
schedule audit p s = do
  name ← require key_error p.name
  if str_eq name "heartbeat-1" then ok s else schedule_named audit name p s

unfoldable pub schedule_all : Audit → List Payload → Schedule → Result Schedule
unfolding schedule
schedule_all audit [] s = ok s
schedule_all audit (p ∷ ps) s = do s' ← schedule audit p s; schedule_all audit ps s'

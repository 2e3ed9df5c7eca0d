-- ===== src/Pushlog/Tests.antt =====
-- The pushlog on two pushes.
use version_control_tools_fx.Base.{
  ℕ, suc, ◌≡◌, refl, true, false, not, ◌||◌, List, [], ◌∷◌, ◌++◌, map, take, Option, none, some,
  Text, codes, text_eq, any, All, ◌==◌, if◌then◌else◌, arith,
}
use version_control_tools_fx.Base.Decimal.{decimal}
use version_control_tools_fx.Base.Result.{Error, ok, ◌>>=◌}
use version_control_tools_fx.Pushlog.Db.{ChangesetRow, Db, lastpushid, max_id}
use version_control_tools_fx.Pushlog.Db.Rows.{IsPushlog}
use version_control_tools_fx.Pushlog.Record.{HookConfig, recordpushes}
use version_control_tools_fx.Pushlog.Lookup.{Repo, order_by, filter_rows, nodes_of}
use version_control_tools_fx.Pushlog.Select.{Args, all_pushes, window, inner}
use version_control_tools_fx.Pushlog.Query.{pushes}
use version_control_tools_fx.Pushlog.Query.Listing.{push_of, pushes-eq-inner}
use version_control_tools_fx.Pushlog.Wire.{Client, pushlogwireproto, exchangepullpushlog}
use version_control_tools_fx.Pushlog.Wire.Lines.{IsPlain, known_pushes}
use version_control_tools_fx.Pushlog.Wire.Pull.{served, refused, open_window, pull-replicates}
use version_control_tools_fx.Pushlog.Wire.Mirror.{row_of, pull-mirrors}
use version_control_tools_fx.Pushlog.Lookup.{push_count}
use version_control_tools_fx.Pushlog.Feed.{Entry, page_entries, numpages}
use version_control_tools_fx.Pushlog.Feed.Pages.{first_pages, replicated, pages_cover}
use version_control_tools_fx.Pushlog.Feed.Changelist.{Web, pushlog_changelist}
use version_control_tools_fx.Pushlog.Feed.Runs.{runs, show_runs, changelist-eq-runs}
use version_control_tools_fx.Pushlog.Repair.{Verified, verify, row_before, handledestroyed}
use version_control_tools_fx.Pushlog.Record.{is_known}
use version_control_tools_fx.Pushlog.Repair.Agreement.{verify-eq}
use version_control_tools_fx.Pushlog.Repair.Destroyed.{surviving}
use version_control_tools_fx.Pushlog.Repair.Updated.{now}
use version_control_tools_fx.Pushlog.Repair.Clear.{KeepOrder}
use version_control_tools_fx.Pushlog.Repair.Reordered.{handledestroyed-KeepOrder}

abbrev no_rows : Db
no_rows = record { pushlog = []; changesets = []; sequence = 0 }

no_rows-IsPushlog : IsPushlog no_rows
no_rows-IsPushlog = record { ids = tt; below = tt; nodes = tt; revs = tt; owned = tt }

abbrev two : Db
two = record {
  pushlog =
      record { id = 1; user = codes "u"; date = 3 }
      ∷ record { id = 2; user = codes "v"; date = 5 }
      ∷ [];
  changesets =
      record { pushid = 1; rev = 0; node = codes "aa" }
      ∷ record { pushid = 2; rev = 1; node = codes "bb" }
      ∷ [];
  sequence = 2;
}

two-IsPushlog : IsPushlog two
unfolding text_eq
two-IsPushlog = record {
  ids = (refl, (refl, tt));
  below = (omega arith, (omega arith, tt));
  nodes = (refl, (refl, tt));
  revs = (refl, (refl, tt));
  owned = (refl, (refl, tt));
}

-- The changeset `aa` has been stripped, and `bb` has moved down.
abbrev resolve : Text → Option (ℕ × Text)
resolve node = if text_eq node (codes "aa") then none else some (0, node)

abbrev resolve_all : Text → Option (ℕ × Text)
resolve_all node = if text_eq node (codes "aa") then some (0, node) else some (1, node)

abbrev by_rev : ℕ → Option (ℕ × Text)
by_rev n = some (n, decimal n)

abbrev config : HookConfig
config = record {
  remote_user = none;
  user = some (codes "u");
  autoland_request_user = none;
  landing_users = [];
  remoteuserprefix = none;
  userprefix = none;
}

abbrev repo : Repo
repo = record {
  lookup = λ t. ok t;
  lookupbranch = λ t. false;
  branch_of = λ t. ok (codes "default");
  replicated_push_id = none;
}

abbrev newest : Args
newest = record all_pushes { reverse = true; limit = some 1 }

pushes_example :
    pushes repo newest two
    ≡ ok (map (push_of true two.changesets) (inner newest (open_window 0 2) two))
unfolding window max_id
pushes_example = pushes-eq-inner repo newest two (open_window 0 2) refl refl refl two-IsPushlog

abbrev message : Error → Text
message e = codes "error"

-- The first attempt fails.
abbrev answers : ℕ → Text → Text
answers n f = if n == 1 then refused (codes "busy") else pushlogwireproto message repo f two

abbrev client : Client
client = record {
  stepsdone = [];
  capable = true;
  call = answers;
  bin = λ t. ok t;
  resolve = resolve_all;
}

two-IsPlain : All IsPlain (served two (suc (lastpushid no_rows)))
unfolding order_by filter_rows nodes_of max_id
two-IsPlain = ((refl, (refl, tt)), ((refl, (refl, tt)), tt))

pull_example : exchangepullpushlog client no_rows ≡ (do
  ps ← known_pushes client (served two 1)
  db' ← recordpushes resolve_all ps no_rows
  ok (codes "pushlog" ∷ [], db'))
unfolding max_id
pull_example =
    pull-replicates client no_rows two message repo (codes "busy" ∷ []) refl refl two-IsPushlog
      two-IsPlain (omega arith) (refl, refl, tt) refl

pulled : exchangepullpushlog client no_rows ≡ ok (codes "pushlog" ∷ [], two)
unfolding exchangepullpushlog pushlogwireproto text_eq max_id
pulled = refl

mirror_example :
    IsPushlog two × ((k : ℕ) × (two.pushlog ≡ [] ++ map row_of (take k (served two 1))))
unfolding max_id
mirror_example =
    pull-mirrors client no_rows two message repo (codes "busy" ∷ []) refl refl two-IsPushlog
      two-IsPlain (omega arith) (refl, refl, tt) refl pulled no_rows-IsPushlog

two-KeepOrder : KeepOrder resolve (order_by row_before two.changesets)
unfolding order_by now text_eq
two-KeepOrder = (omega arith, ((λ h k. cc), tt), (omega arith, tt, tt))

destroyed_example :
    handledestroyed resolve two ≡ ok (record two { changesets = surviving resolve two.changesets })
destroyed_example = handledestroyed-KeepOrder resolve two two-KeepOrder

verify_example :
    (v : Verified) × (verify resolve (codes "bb" ∷ codes "dd" ∷ []) repo two ≡ ok v)
    × (v.ret ≡ (
        if any (λ (c : ChangesetRow). not (is_known resolve c.node)) two.changesets
          || any
              (λ n. not (any (λ (c : ChangesetRow). text_eq n c.node) two.changesets))
              (codes "bb" ∷ codes "dd" ∷ [])
        then 1
        else 0))
verify_example = verify-eq resolve (codes "bb" ∷ codes "dd" ∷ []) repo two two-IsPushlog

pages_example :
    first_pages repo two (numpages (push_count two))
    ≡ ok (page_entries false (map (push_of true two.changesets) (replicated repo two)))
pages_example = pages_cover repo two two-IsPushlog

-- Every node is seen, and none is a merge.
abbrev web : Web
web = record { visible = λ t. true; multiple_parents = λ t. false; parity = λ n. n }

abbrev three : List Entry
three =
    record { pushid = 2; user = codes "v"; date = 5; node = codes "cc" }
    ∷ record { pushid = 2; user = codes "v"; date = 5; node = codes "bb" }
    ∷ record { pushid = 1; user = codes "u"; date = 3; node = codes "aa" }
    ∷ []

changelist_example :
    pushlog_changelist web false three
    ≡ ok (show_runs web 0 (runs (filter_rows (λ (e : Entry). web.visible e.node) three)))
changelist_example = changelist-eq-runs web false three

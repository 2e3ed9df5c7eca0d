-- ===== src/Bootstrap/Tests.antt =====
-- A bootstrap with one repository on the list and one that came later.
use version_control_tools_fx.Base.{
  ◌≡◌, refl, true, false, List, [], ◌∷◌, none, some, Text, codes, text_eq, find, String,
}
use version_control_tools_fx.Base.Result.{ok}
use version_control_tools_fx.Message.{Payload, empty}
use version_control_tools_fx.Hooks.Roots.{member}
use version_control_tools_fx.Config.Filter.{Filters}
use version_control_tools_fx.Pushlog.Lookup.{filter_rows}
use version_control_tools_fx.Bootstrap.Schedule.{Audit, Schedule, filter_all, listed, schedule_all}
use version_control_tools_fx.Bootstrap.Finish.{Threads, Outcome, start, hgweb}
use version_control_tools_fx.Bootstrap.View.{is_own, view}
use version_control_tools_fx.Bootstrap.Kept.{await, awaited, schedule_all-awaited}
use version_control_tools_fx.Bootstrap.Dropped.{has_clone, has_batch, hgweb-unlisted}

abbrev on_list : Text
on_list = codes "a"

abbrev later : Text
later = codes "b"

abbrev named : String → Text → Payload
named n path = record empty { name = some n; path = some path }

abbrev sync_of : Text → Payload
sync_of path = record empty {
  name = some "hg-repo-sync-2";
  path = some path;
  bootstrap = some true;
  requirements = some [];
  hgrc = some none;
  heads = some [];
}

-- Changesets before the synchronization and behind it, and a repository that is not on the list.
abbrev messages : List Payload
messages =
    named "hg-changegroup-2" on_list
    ∷ sync_of on_list
    ∷ named "hg-repo-init-2" later
    ∷ named "hg-changegroup-2" on_list
    ∷ []

abbrev scheduled : Schedule
scheduled = record {
  to_clone = [];
  clones = record { path = on_list; requirements = []; hgrc = none; heads = [] } ∷ [];
  extra =
      (later, named "hg-repo-init-2" later ∷ [])
      ∷ (on_list, named "hg-changegroup-2" on_list ∷ [])
      ∷ [];
}

abbrev scheduled_ok : schedule_all [] messages (start (on_list ∷ [])) ≡ ok scheduled
unfolding schedule_all text_eq
scheduled_ok = refl

awaited_example :
    view on_list scheduled ≡ awaited on_list (await (filter_rows (is_own on_list) messages))
unfolding member find text_eq
awaited_example =
    schedule_all-awaited on_list (on_list ∷ []) [] messages scheduled scheduled_ok refl refl

abbrev no_filters : Filters
no_filters = record {
  has_filters = false;
  path_includes = [];
  path_excludes = [];
  include_regex = none;
  exclude_regex = none;
}

abbrev calm : Threads
calm = record {
  clone = λ _. none;
  seqmap = λ _ _. none;
  clones_completed = λ cs. cs;
  extra_completed = λ bs. bs;
}

abbrev done : Outcome
done = record {
  clones = scheduled.clones;
  batches = (on_list, named "hg-changegroup-2" on_list ∷ []) ∷ [];
  audit = [];
  code = 0;
}

abbrev done_ok : hgweb no_filters calm (on_list ∷ []) messages ≡ ok done
unfolding hgweb text_eq
done_ok = refl

unlisted_example :
    (st : List Text × Audit) × (s : Schedule) × (filter_all no_filters (on_list ∷ []) ([], [])
      ≡ ok st)
    × (schedule_all st.1 messages (start st.0) ≡ ok s)
    × (listed (find later s.extra) ≡ filter_rows (is_own later) messages)
    × (has_clone later done.clones ≡ false)
    × (has_batch later done.batches ≡ false)
    × (find later done.audit ≡ none)
unfolding member text_eq
unlisted_example =
    hgweb-unlisted no_filters calm (on_list ∷ []) messages later done
      (record { of_clones = λ _. refl; of_extra = λ _. refl }) done_ok refl

-- ===== src/Unify/Tests.antt =====
-- Two sources that are unified.
use version_control_tools_fx.Base.{
  ℕ, ◌≡◌, refl, true, false, ◌||◌, List, [], ◌∷◌, map, none, some, Text, codes, text_eq, All, find,
  arith,
}
use version_control_tools_fx.Base.Result.{ok, err, other_error, ◌>>=◌}
use version_control_tools_fx.Hooks.Roots.{member}
use version_control_tools_fx.Pushlog.Db.{Db}
use version_control_tools_fx.Pushlog.Db.Rows.{IsPushlog}
use version_control_tools_fx.Pushlog.Record.{Push, recordpushes}
use version_control_tools_fx.Pushlog.Lookup.{Repo}
use version_control_tools_fx.Unify.Settings.{Source}
use version_control_tools_fx.Unify.Collect.{
  SourceRepo, Sources, Info, PushInfo, position, resolve, allnodes, collected,
}
use version_control_tools_fx.Unify.Pulls.{Changelog, children, sorted_infos, emitfastforwardnodes}
use version_control_tools_fx.Unify.Pushes.{UnifiedPush, unifypushes, newpushes}
use version_control_tools_fx.Unify.Earliest.{arrivals, IsFirst, collected-IsFirst}
use version_control_tools_fx.Unify.Covers.{
  Within, Covered, push_order, emitfastforwardnodes-Covered,
}
use version_control_tools_fx.Unify.Grouped.{Run, entries, as_push, IsRun, Apart, unifypushes-runs}
use version_control_tools_fx.Unify.Ready.{in_db, unified_nodes}
use version_control_tools_fx.Unify.Recorded.{newpushes-recordpushes}

abbrev node_a : Text
node_a = codes "a"

abbrev node_b : Text
node_b = codes "b"

abbrev node_c : Text
node_c = codes "c"

abbrev dev : Text
dev = codes "dev"

abbrev push_at : ℕ → ℕ → List Text → Push
push_at id when nodes = record { pushid = id; user = dev; when = when; nodes = nodes }

abbrev source_at : Text → Source
source_at p = record { name = p; path = p; pullrevs = codes "0:tip"; bookmark = some p }

abbrev repo_with : List Text → List Push → SourceRepo
repo_with nodes ps = record {
  nodes = nodes;
  pushlog = some ps;
  revs = λ _. 0 ∷ 1 ∷ [];
  headrevs = 1 ∷ [];
}

-- The first source has `b` behind `a`, the second one `c`, and had `a` later.
abbrev two_sources : Sources
two_sources =
    (
      source_at (codes "/x"),
      repo_with (node_a ∷ node_b ∷ []) (push_at 1 10 (node_a ∷ node_b ∷ []) ∷ []),
    )
    ∷ (
      source_at (codes "/y"),
      repo_with (node_a ∷ node_c ∷ [])
          (push_at 1 20 (node_a ∷ []) ∷ push_at 2 30 (node_c ∷ []) ∷ []),
    )
    ∷ []

abbrev info_of : Text → ℕ → ℕ → ℕ → Info
info_of path when rev id = record { when = when; source = path; rev = rev; who = dev; pushid = id }

abbrev two_infos : PushInfo
two_infos =
    (node_a, info_of (codes "/x") 10 0 1)
    ∷ (node_b, info_of (codes "/x") 10 1 1)
    ∷ (node_c, info_of (codes "/y") 30 1 2)
    ∷ []

two_collected : collected two_sources ≡ ok two_infos
unfolding collected text_eq
two_collected = refl

collected_example :
    (i : Info) × (find node_a two_infos ≡ some i) × IsFirst node_a i (arrivals two_sources)
unfolding member allnodes text_eq
collected_example = collected-IsFirst two_sources two_infos node_a two_collected refl

abbrev staged : Changelog
staged = (node_a, []) ∷ (node_b, node_a ∷ []) ∷ (node_c, node_a ∷ []) ∷ []

emitted_example :
    (out : List Text) × (emitfastforwardnodes staged two_infos ≡ ok out)
    × Within out (push_order two_infos)
    × ((n : Text)
        → member n (push_order two_infos) ≡ true
        → Covered (children staged (push_order two_infos)) out n)
unfolding member children sorted_infos text_eq
emitted_example = emitfastforwardnodes-Covered staged two_infos ((refl, (refl, tt)), (tt, (tt, tt)))

two_emitted : emitfastforwardnodes staged two_infos ≡ ok (node_b ∷ node_c ∷ [])
unfolding emitfastforwardnodes text_eq
two_emitted = refl

grouped_example :
    (rs : List Run) × (entries rs ≡ sorted_infos two_infos)
    × All IsRun rs
    × Apart rs
    × (unifypushes two_infos ≡ map as_push rs)
grouped_example = unifypushes-runs two_infos (tt, (tt, (tt, tt)))

abbrev unified : List UnifiedPush
unified =
    record { source = codes "/x"; pushid = 1; who = dev; when = 10; nodes = node_a ∷ node_b ∷ [] }
    ∷ record { source = codes "/y"; pushid = 2; who = dev; when = 30; nodes = node_c ∷ [] }
    ∷ []

two_unified : unifypushes two_infos ≡ unified
unfolding unifypushes text_eq
two_unified = refl

abbrev silent : Repo
silent = record {
  lookup = λ _. err other_error;
  lookupbranch = λ _. false;
  branch_of = λ _. err other_error;
  replicated_push_id = none;
}

-- The destination has `a` already.
abbrev with_a : Db
with_a = record {
  pushlog = record { id = 1; user = dev; date = 10 } ∷ [];
  changesets = record { pushid = 1; rev = 0; node = node_a } ∷ [];
  sequence = 1;
}

with_a-IsPushlog : IsPushlog with_a
with_a-IsPushlog = record {
  ids = (refl, tt);
  below = (omega arith, tt);
  nodes = (refl, tt);
  revs = (refl, tt);
  owned = (refl, tt);
}

recorded_example :
    (db' : Db) × ((newpushes silent unified with_a >>= λ ps.
    recordpushes (resolve (node_a ∷ node_b ∷ node_c ∷ [])) ps with_a)
      ≡ ok db')
    × IsPushlog db'
    × ((n : Text) → in_db n db' ≡ (in_db n with_a || member n (unified_nodes unified)))
    × (newpushes silent unified db' ≡ ok [])
unfolding position text_eq
recorded_example =
    newpushes-recordpushes silent (node_a ∷ node_b ∷ node_c ∷ []) unified with_a with_a-IsPushlog
      (refl, tt) ((0, refl), ((1, refl), ((2, refl), tt))) (refl, (refl, (refl, tt)))

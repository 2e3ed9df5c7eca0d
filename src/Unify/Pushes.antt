-- ===== src/Unify/Pushes.antt =====
-- hgext/unifyrepo/__init__.py: `unifypushes` and `newpushes`.
use version_control_tools_fx.Base.{
  ℕ, suc, Bool, ◌&&◌, List, [], ◌∷◌, ◌++◌, Option, none, some, Text, text_eq, ◌==◌, if◌then◌else◌,
}
use version_control_tools_fx.Base.Result.{Result, ok, ◌>>=◌}
use version_control_tools_fx.Hooks.Roots.{difference, is_empty}
use version_control_tools_fx.Pushlog.Db.{Db, lastpushid}
use version_control_tools_fx.Pushlog.Record.{Push}
use version_control_tools_fx.Pushlog.Lookup.{Repo}
use version_control_tools_fx.Pushlog.Select.{all_pushes}
use version_control_tools_fx.Pushlog.Query.{pushes}
use version_control_tools_fx.Unify.Collect.{Info, PushInfo}
use version_control_tools_fx.Unify.Pulls.{sorted_infos}

-- What `unifypushes` yields.
pub record UnifiedPush : Type 0 where
  pub source : Text
  pub pushid : ℕ
  pub who : Text
  pub when : ℕ
  pub nodes : List Text

abbrev pub open_push : Text → Info → UnifiedPush
open_push node i = record {
  source = i.source;
  pushid = i.pushid;
  who = i.who;
  when = i.when;
  nodes = node ∷ [];
}

abbrev pub same_push : UnifiedPush → Info → Bool
same_push p i = text_eq p.source i.source && p.pushid == i.pushid

-- The push that the loop leaves open; one without a source is not yielded.
abbrev pub close_push : Option UnifiedPush → List UnifiedPush
close_push none = []
close_push (some p) = elim p.source [ [] ↦ [] | c ∷ cs ↦ p ∷ [] ]

-- The loop, with the open push.
unfoldable pub unify_from : Option UnifiedPush → PushInfo → List UnifiedPush
unify_from current [] = close_push current
unify_from none ((node, i) ∷ es) = unify_from (some (open_push node i)) es
unify_from (some p) ((node, i) ∷ es) =
    let same = unify_from (some (record p { nodes = p.nodes ++ node ∷ [] })) es in
    let next = unify_from (some (open_push node i)) es in if same_push p i then same else p ∷ next

-- `unifypushes`
unfoldable pub unifypushes : PushInfo → List UnifiedPush
unfolding unify_from sorted_infos
unifypushes m = unify_from none (sorted_infos m)

-- The nodes of pushes: `destpushnodes`.
unfoldable pub push_nodes : List Push → List Text
push_nodes [] = []
push_nodes (p ∷ ps) = p.nodes ++ push_nodes ps

-- The loop of `newpushes`, with `lastpushid`.
unfoldable pub new_from : List Text → ℕ → List UnifiedPush → List Push
unfolding difference
new_from known last [] = []
new_from known last (u ∷ us) =
    let missing = difference u.nodes known in
    let same = new_from known last us in
    let next = new_from known (suc last) us in
    if is_empty missing
    then same
    else record { pushid = suc last; user = u.who; when = u.when; nodes = missing } ∷ next

-- `newpushes`, all that it yields
unfoldable pub newpushes : Repo → List UnifiedPush → Db → Result (List Push)
unfolding pushes push_nodes new_from
newpushes r unified db = do
  destpushes ← pushes r all_pushes db
  ok (new_from (push_nodes destpushes) (lastpushid db) unified)

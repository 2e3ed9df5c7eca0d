-- ===== src/Pushlog/Feed/Changelist.antt =====
-- `pushlog_changelist` with `handle_entries_for_push` and `create_entry`. Fields that are read from
-- the changeset alone are left out.
use version_control_tools_fx.Base.{
  ℕ, suc, Bool, true, false, List, [], ◌∷◌, ◌++◌, map, Option, none, some, Text, length, take, ◌==◌,
  if◌then◌else◌,
}
use version_control_tools_fx.Base.Result.{Result, ok, err, index_error, ◌>>=◌}
use version_control_tools_fx.Pushlog.Lookup.{filter_rows}
use version_control_tools_fx.Pushlog.Feed.{Entry}

-- What the view sees: the nodes that are not hidden, the changesets with several parents, and the
-- values of `paritygen`.
pub record Web : Type 0 where
  pub visible : Text → Bool
  pub multiple_parents : Text → Bool
  pub parity : ℕ → ℕ

pub record ChangeEntry : Type 0 where
  pub node : Text
  pub id : ℕ
  pub hidden : Bool
  pub parity : ℕ
  pub mergerollup : Option ℕ
  pub push : Option (ℕ × Text)

-- `create_entry`
abbrev pub create_entry : Entry → Bool → ℕ → Option ℕ → ChangeEntry
create_entry e mergehidden parity none = record {
  node = e.node;
  id = e.pushid;
  hidden = mergehidden;
  parity = parity;
  mergerollup = none;
  push = none;
}
create_entry e mergehidden parity (some pushcount) = record {
  node = e.node;
  id = e.pushid;
  hidden = mergehidden;
  parity = parity;
  mergerollup = if mergehidden then some pushcount else none;
  push = some (e.date, e.user);
}

-- `handle_entries_for_push`; an empty queue has no first entry
unfoldable pub handle_entries_for_push : Web → List Entry → ℕ → Result (List ChangeEntry)
handle_entries_for_push web [] p = err index_error
handle_entries_for_push web (e ∷ es) p =
    let mergehidden = web.multiple_parents e.node in
    ok (
      create_entry e mergehidden p (some (length (e ∷ es)))
      ∷ map (λ (f : Entry). create_entry f mergehidden p none) es)

-- `len(samepush) == 0`
abbrev pub is_empty : List Entry → Bool
is_empty [] = true
is_empty (e ∷ es) = false

-- The loop behind the first entry; `k` is the number of the parity at hand.
unfoldable pub aggregate : Web → List Entry → ℕ → List Entry → ℕ → Result (List ChangeEntry)
unfolding handle_entries_for_push
aggregate web [] lastid [] k = ok []
aggregate web [] lastid (s ∷ ss) k = handle_entries_for_push web (s ∷ ss) (web.parity k)
aggregate web (e ∷ es) lastid samepush k = elim (e.pushid == lastid) [
  | true ↦ aggregate web es lastid (samepush ++ e ∷ []) k
  | false ↦
      let firstpush = is_empty samepush in
      let queue = if firstpush then e ∷ [] else samepush in
      do
        shown ← handle_entries_for_push web queue (web.parity k)
        rest ← aggregate web es e.pushid (if firstpush then [] else e ∷ []) (suc k)
        ok (shown ++ rest)
]

abbrev pub from_first : Web → List Entry → Result (List ChangeEntry)
from_first web [] = ok []
from_first web (e ∷ es) = aggregate web es e.pushid (e ∷ []) 0

-- `pushlog_changelist`; with `tiponly` it stops behind the first entry
unfoldable pub pushlog_changelist : Web → Bool → List Entry → Result (List ChangeEntry)
unfolding filter_rows aggregate
pushlog_changelist web tiponly entries = do
  shown ← from_first web (filter_rows (λ (e : Entry). web.visible e.node) entries)
  ok (if tiponly then take 1 shown else shown)

-- ===== src/Pushlog/Feed/Runs.antt =====
-- The list of changes shows the runs of visible entries of one push.
use version_control_tools_fx.Base.{
  ℕ, suc, ◌≡◌, refl, sym, ap, ◌∙◌, Bool, true, false, List, [], ◌∷◌, ◌++◌, append_assoc, append-nil,
  map, none, some, length, take, ◌==◌, arith, Bool-cases, inl, inr, if◌then◌else◌,
}
use version_control_tools_fx.Base.Result.{Result, ok, ◌>>=◌}
use version_control_tools_fx.Pushlog.Lookup.{filter_rows}
use version_control_tools_fx.Pushlog.Feed.{Entry}
use version_control_tools_fx.Pushlog.Feed.Changelist.{
  Web, ChangeEntry, create_entry, handle_entries_for_push, aggregate, from_first,
  pushlog_changelist,
}

-- The longest runs of entries with one push id.
abbrev pub onto_run : Entry → List (List Entry) → List (List Entry)
onto_run e [] = (e ∷ []) ∷ []
onto_run e ([] ∷ rs) = (e ∷ []) ∷ [] ∷ rs
onto_run e ((f ∷ fs) ∷ rs) =
    if e.pushid == f.pushid then (e ∷ f ∷ fs) ∷ rs else (e ∷ []) ∷ (f ∷ fs) ∷ rs

unfoldable pub runs : List Entry → List (List Entry)
runs [] = []
runs (e ∷ es) = onto_run e (runs es)

-- The first entry of a run tells of the push, and all take the parity of the run.
abbrev pub show_run : Web → ℕ → List Entry → List ChangeEntry
show_run web k [] = []
show_run web k (e ∷ es) =
    let hidden = web.multiple_parents e.node in
    create_entry e hidden (web.parity k) (some (length (e ∷ es)))
    ∷ map (λ (f : Entry). create_entry f hidden (web.parity k) none) es

unfoldable pub show_runs : Web → ℕ → List (List Entry) → List ChangeEntry
show_runs web k [] = []
show_runs web k (r ∷ rs) = show_run web k r ++ show_runs web (suc k) rs

-- The queue before the runs that follow.
abbrev attach : List Entry → ℕ → List (List Entry) → List (List Entry)
attach queue lastid [] = queue ∷ []
attach queue lastid ([] ∷ rs) = queue ∷ [] ∷ rs
attach queue lastid ((f ∷ fs) ∷ rs) =
    if f.pushid == lastid then (queue ++ f ∷ fs) ∷ rs else queue ∷ (f ∷ fs) ∷ rs

attach-same :
    (queue : List Entry) (lastid : ℕ) (e : Entry) (rs : List (List Entry))
    → (e.pushid == lastid) ≡ true
    → attach (queue ++ e ∷ []) lastid rs ≡ attach queue lastid (onto_run e rs)
attach-same queue lastid e [] h = rw h refl
attach-same queue lastid e ([] ∷ rs) h = rw h refl
attach-same queue lastid e ((f ∷ fs) ∷ rs) h = elim (Bool-cases (e.pushid == f.pushid)) [
  | inl same ↦
      let last : (f.pushid == lastid) ≡ true = ground (arith, h, same) in
      rw (same, last, h) (ap (λ (r : List Entry). r ∷ rs) (append_assoc queue (e ∷ []) (f ∷ fs)))
  | inr other ↦
      let last : (f.pushid == lastid) ≡ false = ground (arith, h, other) in rw (other, last, h) refl
]

attach-next :
    (queue : List Entry) (lastid : ℕ) (e : Entry) (rs : List (List Entry))
    → (e.pushid == lastid) ≡ false
    → queue ∷ attach (e ∷ []) e.pushid rs ≡ attach queue lastid (onto_run e rs)
attach-next queue lastid e [] h = rw h refl
attach-next queue lastid e ([] ∷ rs) h = rw h refl
attach-next queue lastid e ((f ∷ fs) ∷ rs) h = elim (Bool-cases (e.pushid == f.pushid)) [
  | inl same ↦
      let back : (f.pushid == e.pushid) ≡ true = ground (arith, same) in rw (same, back, h) refl
  | inr other ↦
      let back : (f.pushid == e.pushid) ≡ false = ground (arith, other) in rw (other, back, h) refl
]

aggregate-runs :
    (web : Web) (es : List Entry) (lastid : ℕ) (s : Entry) (ss : List Entry) (k : ℕ)
    → aggregate web es lastid (s ∷ ss) k ≡ ok (show_runs web k (attach (s ∷ ss) lastid (runs es)))
unfolding aggregate handle_entries_for_push show_runs runs
aggregate-runs web [] lastid s ss k = ap ok (sym (append-nil (show_run web k (s ∷ ss))))
aggregate-runs web (e ∷ es) lastid s ss k = elim (Bool-cases (e.pushid == lastid)) [
  | inl same ↦
      rw (aggregate, same)
        (aggregate-runs web es lastid s (ss ++ e ∷ []) k
          ∙ ap (λ (rs : List (List Entry)). ok (show_runs web k rs))
              (attach-same (s ∷ ss) lastid e (runs es) same))
  | inr other ↦
      rw (aggregate, other)
        (ap (λ (o : Result (List ChangeEntry)). o >>= λ rest. ok (show_run web k (s ∷ ss) ++ rest))
            (aggregate-runs web es e.pushid e [] (suc k))
          ∙ ap (λ (rs : List (List Entry)). ok (show_runs web k rs))
              (attach-next (s ∷ ss) lastid e (runs es) other))
]

attach-first : (e : Entry) (rs : List (List Entry)) → attach (e ∷ []) e.pushid rs ≡ onto_run e rs
attach-first e [] = refl
attach-first e ([] ∷ rs) = refl
attach-first e ((f ∷ fs) ∷ rs) = elim (Bool-cases (e.pushid == f.pushid)) [
  | inl same ↦
      let back : (f.pushid == e.pushid) ≡ true = ground (arith, same) in rw (same, back) refl
  | inr other ↦
      let back : (f.pushid == e.pushid) ≡ false = ground (arith, other) in rw (other, back) refl
]

from_first-runs : (web : Web) (es : List Entry) → from_first web es ≡ ok (show_runs web 0 (runs es))
unfolding runs show_runs
from_first-runs web [] = refl
from_first-runs web (e ∷ es) =
    aggregate-runs web es e.pushid e [] 0
    ∙ ap (λ (rs : List (List Entry)). ok (show_runs web 0 rs)) (attach-first e (runs es))

-- The list of changes never fails: it shows the visible entries run by run of one push, the first of
-- each run with the push and with the length of the run where it is a merge, and for the tip only
-- the first entry.
pub changelist-eq-runs :
    (web : Web) (tiponly : Bool) (entries : List Entry)
    → pushlog_changelist web tiponly entries ≡ (
        let shown =
          show_runs web 0 (runs (filter_rows (λ (e : Entry). web.visible e.node) entries)) in
        ok (if tiponly then take 1 shown else shown))
unfolding pushlog_changelist
changelist-eq-runs web tiponly entries =
    ap
      (λ (o : Result (List ChangeEntry)).
        o >>= λ shown. ok (if tiponly then take 1 shown else shown))
      (from_first-runs web (filter_rows (λ (e : Entry). web.visible e.node) entries))

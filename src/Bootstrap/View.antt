-- ===== src/Bootstrap/View.antt =====
-- What the schedule of `hgweb` has of one repository.
use text.Mathlib.Text.{◌==◌ as str_eq}
use version_control_tools_fx.Base.{
  ◌≡◌, refl, sym, ap, ◌∙◌, Bool, true, false, not, ◌&&◌, List, [], ◌∷◌, ◌++◌, append-nil, none,
  some, Text, text_eq, text_eq_iff, find, find-assign, if◌then◌else◌, arith, Option-cases, inl, inr,
}
use version_control_tools_fx.Base.Result.{ok, err}
use version_control_tools_fx.Message.{Payload}
use version_control_tools_fx.Hooks.Roots.{member, difference}
use version_control_tools_fx.Pushlog.Lookup.{filter_rows}
use version_control_tools_fx.Bootstrap.Schedule.{
  Audit, listed, Clone, Schedule, read_clone, keep_extra,
}

-- A message of the repository, other than a heartbeat.
abbrev pub is_own : Text → Payload → Bool
is_own repo p = elim p.name [
  | none ↦ false
  | some name ↦
      not (str_eq name "heartbeat-1")
      && elim p.path [ none ↦ false | some path ↦ text_eq path repo ]
]

-- The synchronization of a bootstrap.
abbrev pub is_sync : Payload → Bool
is_sync p = elim p.name [
  | none ↦ false
  | some name ↦ str_eq name "hg-repo-sync-2" && elim p.bootstrap [ none ↦ false | some b ↦ b ]
]

abbrev pub clone_of : Text → Payload → List Clone
clone_of repo p = elim (read_clone repo p) [ err e ↦ [] | ok c ↦ c ∷ [] ]

-- What the schedule has of one repository: whether it waits for a clone, its clones, and the messages
-- that are kept.
pub record View : Type 0 where
  pub waiting : Bool
  pub clones : List Clone
  pub extra : List Payload

abbrev pub view : Text → Schedule → View
view repo s = record {
  waiting = member repo s.to_clone;
  clones = filter_rows (λ (c : Clone). text_eq c.path repo) s.clones;
  extra = listed (find repo s.extra);
}

abbrev pub unless_audited : Bool → List Payload → List Payload
unless_audited audited ps = if audited then [] else ps

abbrev pub at : Bool → List Clone → List Payload → View
at waiting clones extra = record { waiting = waiting; clones = clones; extra = extra }

-- One message of the repository.
unfoldable pub follow_one : Text → Bool → Payload → View → View
follow_one repo audited p v =
    if v.waiting
    then if is_sync p then at false (v.clones ++ clone_of repo p) v.extra else v
    else at false v.clones (v.extra ++ unless_audited audited (p ∷ []))

unfoldable pub follow : Text → Bool → List Payload → View → View
unfolding follow_one
follow repo audited [] v = v
follow repo audited (p ∷ ps) v = follow repo audited ps (follow_one repo audited p v)

abbrev pub is_audited : Text → Audit → Bool
is_audited repo audit = elim (find repo audit) [ none ↦ false | some reports ↦ true ]

filter_rows-append :
    {A : Type 0} (p : A → Bool) (xs ys : List A)
    → filter_rows p (xs ++ ys) ≡ filter_rows p xs ++ filter_rows p ys
unfolding filter_rows
filter_rows-append p [] ys = refl
filter_rows-append p (x ∷ xs) ys = ground (arith, filter_rows-append p xs ys)

member-without :
    (r path : Text) (xs : List Text)
    → member r (difference xs (path ∷ [])) ≡ (member r xs && not (text_eq path r))
unfolding member difference
member-without r path [] = refl
member-without r path (x ∷ xs) =
    ground
      (arith, member-without r path xs, text_eq_iff x path, text_eq_iff path r, text_eq_iff r x)

module _ (repo : Text) (audit : Audit) (p : Payload) (s : Schedule) where
  pub keep_extra-other :
      (path : Text)
      → text_eq path repo ≡ false
      → view repo (keep_extra audit path p s) ≡ view repo s
  unfolding keep_extra
  keep_extra-other path other = elim (Option-cases (find path audit)) [
    | inr (reports, e) ↦ rw (keep_extra, e) refl
    | inl clean ↦
        let kept = listed (find path s.extra) ++ p ∷ [] in
        let found : (if text_eq path repo then some kept else find repo s.extra)
            ≡ find repo s.extra =
          rw other refl in
        rw (keep_extra, clean)
          (ap (λ o. at (member repo s.to_clone) (view repo s).clones (listed o))
            (find-assign path repo kept s.extra ∙ found))
  ]

  pub keep_extra-own :
      member repo s.to_clone ≡ false
      → view repo (keep_extra audit repo p s)
        ≡ follow_one repo (is_audited repo audit) p (view repo s)
  unfolding keep_extra follow_one
  keep_extra-own idle = rw idle (elim (Option-cases (find repo audit)) [
    | inr (reports, e) ↦
        rw (keep_extra, is_audited, e)
          (ap (λ w. at w (view repo s).clones (view repo s).extra) idle
            ∙ ap (λ es. at false (view repo s).clones es) (sym (append-nil (view repo s).extra)))
    | inl clean ↦
        let same : text_eq repo repo ≡ true = ground (arith, text_eq_iff repo repo) in
        let kept = listed (find repo s.extra) ++ p ∷ [] in
        let found : (if text_eq repo repo then some kept else find repo s.extra) ≡ some kept =
          rw same refl in
        rw (keep_extra, is_audited, clean)
          (ap (λ o. at (member repo s.to_clone) (view repo s).clones (listed o))
              (find-assign repo repo kept s.extra ∙ found)
            ∙ ap (λ w. at w (view repo s).clones kept) idle)
  ])

pub read_clone-path :
    (path : Text) (p : Payload) {c : Clone} → read_clone path p ≡ ok c → c.path ≡ path
unfolding read_clone
read_clone-path path p h = ground arith

abbrev pub cloned : Text → Clone → Schedule → Schedule
cloned path c s = record s {
  clones = s.clones ++ c ∷ [];
  to_clone = difference s.to_clone (path ∷ []);
}

filter-one :
    (repo : Text) (c : Clone)
    → filter_rows (λ (d : Clone). text_eq d.path repo) (c ∷ [])
      ≡ (if text_eq c.path repo then c ∷ [] else [])
unfolding filter_rows
filter-one repo c = refl

pub cloned-view :
    (repo path : Text) (c : Clone) (s : Schedule)
    → view repo (cloned path c s)
      ≡ at
          (member repo s.to_clone && not (text_eq path repo))
          ((view repo s).clones ++ (if text_eq c.path repo then c ∷ [] else []))
          (view repo s).extra
cloned-view repo path c s =
    ap
      (λ w.
        at w (filter_rows (λ (d : Clone). text_eq d.path repo) (s.clones ++ c ∷ []))
          (view repo s).extra)
      (member-without repo path s.to_clone)
    ∙ ap (λ cs. at (member repo s.to_clone && not (text_eq path repo)) cs (view repo s).extra)
        (filter_rows-append (λ (d : Clone). text_eq d.path repo) s.clones (c ∷ [])
          ∙ ap (λ cs. (view repo s).clones ++ cs) (filter-one repo c))

-- ===== src/Bootstrap/Own.antt =====
-- `hgweb` of bootstrap.py, one repository at a time: what becomes of its messages does not depend on
-- those of the others.
use text.Mathlib.Text.{◌==◌ as str_eq}
use version_control_tools_fx.Base.{
  ◌≡◌, refl, sym, ap, ◌∙◌, Bool, true, false, not, ◌&&◌, List, [], ◌∷◌, ◌++◌, append-nil, some,
  Text, text_eq, text_eq_iff, if◌then◌else◌, arith, Bool-cases, inl, inr, String,
}
use version_control_tools_fx.Base.Result.{
  Result, ok, err, key_error, require, >>=-eq-ok, require-eq-ok,
}
use version_control_tools_fx.Message.{Payload}
use version_control_tools_fx.Hooks.Roots.{member}
use version_control_tools_fx.Pushlog.Lookup.{filter_rows}
use version_control_tools_fx.Bootstrap.Schedule.{
  Audit, Clone, Schedule, is_bootstrap_sync, read_clone, add_clone, schedule_clone, keep_extra,
  schedule_named, schedule, schedule_all,
}
use version_control_tools_fx.Bootstrap.View.{
  is_own, is_sync, View, view, at, follow_one, follow, is_audited, keep_extra-other, keep_extra-own,
  read_clone-path, cloned, cloned-view,
}

module _ (repo : Text) (p : Payload) (s : Schedule) {s' : Schedule} where
  add_clone-other :
      (sync : Bool) (path : Text)
      → text_eq path repo ≡ false
      → add_clone sync path p s ≡ ok s'
      → view repo s' ≡ view repo s
  unfolding add_clone
  add_clone-other false path other h = let same : s ≡ s' = cc in ap (view repo) (sym same)
  add_clone-other true path other h =
      let (c, read, h') = >>=-eq-ok (read_clone path p) _ h in
      let is : cloned path c s ≡ s' = cc in
      let apart : text_eq c.path repo ≡ false =
        ap (λ t. text_eq t repo) (read_clone-path path p read) ∙ other in
      let waits : (member repo s.to_clone && not (text_eq path repo)) ≡ member repo s.to_clone =
        ground (arith, other) in
      ap (view repo) (sym is)
      ∙ cloned-view repo path c s
      ∙ ap
          (λ w.
            at w ((view repo s).clones ++ (if text_eq c.path repo then c ∷ [] else []))
              (view repo s).extra)
          waits
      ∙ ap
          (λ b.
            at (member repo s.to_clone) ((view repo s).clones ++ (if b then c ∷ [] else []))
              (view repo s).extra)
          apart
      ∙ ap (λ cs. at (member repo s.to_clone) cs (view repo s).extra)
          (append-nil (view repo s).clones)

  add_clone-own :
      (sync audited : Bool)
      → member repo s.to_clone ≡ true
      → is_sync p ≡ sync
      → add_clone sync repo p s ≡ ok s'
      → view repo s' ≡ follow_one repo audited p (view repo s)
  unfolding add_clone follow_one
  add_clone-own false audited waits other h =
      let same : s ≡ s' = cc in
      rw (waits, other)
        (ap (view repo) (sym same) ∙ ap (λ w. at w (view repo s).clones (view repo s).extra) waits)
  add_clone-own true audited waits sync h =
      let (c, read, h') = >>=-eq-ok (read_clone repo p) _ h in
      let is : cloned repo c s ≡ s' = cc in
      let same : text_eq repo repo ≡ true = ground (arith, text_eq_iff repo repo) in
      let own : text_eq c.path repo ≡ true =
        ap (λ t. text_eq t repo) (read_clone-path repo p read) ∙ same in
      let idle : (member repo s.to_clone && not (text_eq repo repo)) ≡ false =
        ground (arith, same) in
      let cs = (view repo s).clones in
      rw (waits, sync)
        (ap (view repo) (sym is)
          ∙ cloned-view repo repo c s
          ∙ ap (λ w. at w (cs ++ (if text_eq c.path repo then c ∷ [] else [])) (view repo s).extra)
              idle
          ∙ ap (λ b. at false (cs ++ (if b then c ∷ [] else [])) (view repo s).extra) own
          ∙ ap
              (λ (r : Result Clone).
                at false (cs ++ elim r [ err e ↦ [] | ok d ↦ d ∷ [] ]) (view repo s).extra)
              (sym read))

is_sync-eq :
    (name : String) (p : Payload) (b : Bool)
    → p.name ≡ some name
    → is_bootstrap_sync name p ≡ ok b
    → is_sync p ≡ b
unfolding is_bootstrap_sync
is_sync-eq name p b named h = ground (arith, named, h)

is_own-eq :
    (repo : Text) (name : String) (path : Text) (p : Payload)
    → p.name ≡ some name
    → str_eq name "heartbeat-1" ≡ false
    → p.path ≡ some path
    → is_own repo p ≡ text_eq path repo
is_own-eq repo name path p named beat there = rw (named, beat, there) refl

schedule_named-view :
    (repo : Text) (audit : Audit) (name : String) (p : Payload) (s : Schedule) {s' : Schedule}
    → p.name ≡ some name
    → str_eq name "heartbeat-1" ≡ false
    → schedule_named audit name p s ≡ ok s'
    → view repo s' ≡ (
        if is_own repo p
        then follow_one repo (is_audited repo audit) p (view repo s)
        else view repo s)
unfolding schedule_named schedule_clone
schedule_named-view repo audit name p s {s'} named beat h =
    let (path, e, h1) = >>=-eq-ok (require key_error p.path) _ h in
    let own = is_own-eq repo name path p named beat (require-eq-ok key_error p.path e) in
    elim (Bool-cases (member path s.to_clone)) [
      | inr idle ↦
          let is : keep_extra audit path p s ≡ s' = cc (rw idle at h1) in
          rw own (elim (Bool-cases (text_eq path repo)) [
            | inr other ↦
                rw other (ap (view repo) (sym is) ∙ keep_extra-other repo audit p s path other)
            | inl same ↦
                let it : path ≡ repo = (text_eq_iff path repo).0 same in
                rw same (
                  ap (view repo) (sym is)
                  ∙ ap (λ t. view repo (keep_extra audit t p s)) it
                  ∙ keep_extra-own repo audit p s (ap (λ t. member t s.to_clone) (sym it) ∙ idle))
          ])
      | inl waits ↦
          let (sync, e', h2) = >>=-eq-ok (is_bootstrap_sync name p) _ (rw waits at h1) in
          rw own (elim (Bool-cases (text_eq path repo)) [
            | inr other ↦ rw other (add_clone-other repo p s sync path other h2)
            | inl same ↦
                let it : path ≡ repo = (text_eq_iff path repo).0 same in
                rw same (
                  add_clone-own repo p s sync (is_audited repo audit)
                    (ap (λ t. member t s.to_clone) (sym it) ∙ waits)
                    (is_sync-eq name p sync named e')
                    (ap (λ t. add_clone sync t p s) (sym it) ∙ h2))
          ])
    ]

schedule-view :
    (repo : Text) (audit : Audit) (p : Payload) (s : Schedule) {s' : Schedule}
    → schedule audit p s ≡ ok s'
    → view repo s' ≡ (
        if is_own repo p
        then follow_one repo (is_audited repo audit) p (view repo s)
        else view repo s)
unfolding schedule
schedule-view repo audit p s {s'} h =
    let (name, e, h1) = >>=-eq-ok (require key_error p.name) _ h in
    let named : p.name ≡ some name = require-eq-ok key_error p.name e in
    elim (Bool-cases (str_eq name "heartbeat-1")) [
      | inr other ↦ schedule_named-view repo audit name p s named other (rw other at h1)
      | inl beat ↦
          let same : s ≡ s' = cc (rw beat at h1) in
          let foreign : is_own repo p ≡ false = rw (named, beat) refl in
          rw foreign (ap (view repo) (sym same))
    ]

-- What the schedule has of a repository behind all messages is what the repository's own messages
-- make of it, one by one, whatever stands between them.
pub schedule_all-follow :
    (repo : Text) (audit : Audit) (ps : List Payload) (s : Schedule) {s' : Schedule}
    → schedule_all audit ps s ≡ ok s'
    → view repo s'
      ≡ follow repo (is_audited repo audit) (filter_rows (is_own repo) ps) (view repo s)
unfolding schedule_all filter_rows follow
schedule_all-follow repo audit [] s {s'} h = let same : s ≡ s' = cc in ap (view repo) (sym same)
schedule_all-follow repo audit (p ∷ ps) s h =
    let (s1, first, rest) = >>=-eq-ok (schedule audit p s) _ h in
    let step = schedule-view repo audit p s first in
    let choice : Bool → View =
      λ b. if b then follow_one repo (is_audited repo audit) p (view repo s) else view repo s in
    elim (Bool-cases (is_own repo p)) [
      | inl own ↦ rw own (
          schedule_all-follow repo audit ps s1 rest
          ∙ ap (follow repo (is_audited repo audit) (filter_rows (is_own repo) ps))
              (step ∙ ap choice own))
      | inr foreign ↦ rw foreign (
          schedule_all-follow repo audit ps s1 rest
          ∙ ap (follow repo (is_audited repo audit) (filter_rows (is_own repo) ps))
              (step ∙ ap choice foreign))
    ]

-- ===== src/Bootstrap/Kept.antt =====
-- Which clone and which messages a listed repository gets.
use version_control_tools_fx.Base.{
  ◌≡◌, refl, sym, ap, ◌∙◌, true, false, List, [], ◌∷◌, ◌++◌, append_assoc, append-nil, Option, none,
  some, Text, find, Bool-cases, inl, inr, if◌then◌else◌,
}
use version_control_tools_fx.Base.Result.{ok}
use version_control_tools_fx.Message.{Payload}
use version_control_tools_fx.Hooks.Roots.{member}
use version_control_tools_fx.Pushlog.Lookup.{filter_rows}
use version_control_tools_fx.Bootstrap.Schedule.{Audit, Clone, Schedule, schedule_all}
use version_control_tools_fx.Bootstrap.Finish.{start}
use version_control_tools_fx.Bootstrap.View.{
  is_own, is_sync, clone_of, View, view, at, follow_one, follow, is_audited,
}
use version_control_tools_fx.Bootstrap.Own.{schedule_all-follow}

-- The first synchronization, and the messages behind it.
abbrev pub await : List Payload → Option (Payload × List Payload)
await [] = none
await (p ∷ ps) = if is_sync p then some (p, ps) else await ps

module _ (repo : Text) where
  -- Without a clone to wait for, all messages are kept.
  pub follow-idle :
      (ps : List Payload) (cs : List Clone) (es : List Payload)
      → follow repo false ps (at false cs es) ≡ at false cs (es ++ ps)
  unfolding follow follow_one
  follow-idle [] cs es = ap (at false cs) (sym (append-nil es))
  follow-idle (p ∷ ps) cs es =
      follow-idle ps cs (es ++ p ∷ []) ∙ ap (at false cs) (append_assoc es (p ∷ []) ps)

  -- What becomes of a repository that waits: with the first synchronization and what stands behind it.
  abbrev pub awaited : Option (Payload × List Payload) → View
  awaited none = at true [] []
  awaited (some a) = at false (clone_of repo a.0) a.1

  follow-await : (ps : List Payload) → follow repo false ps (at true [] []) ≡ awaited (await ps)
  unfolding follow follow_one
  follow-await [] = refl
  follow-await (p ∷ ps) = elim (Bool-cases (is_sync p)) [
    | inl sync ↦ rw (follow, follow_one, sync) (follow-idle ps (clone_of repo p) [])
    | inr other ↦ rw (follow, follow_one, other) (follow-await ps)
  ]

-- A repository of the list that the filters have let pass is scheduled for one clone, with the first
-- synchronization of a bootstrap among its messages, and the messages behind this one are kept for
-- it; without one it still waits, and none are kept.
pub schedule_all-awaited :
    (repo : Text) (repos : List Text) (audit : Audit) (ps : List Payload) (s : Schedule)
    → schedule_all audit ps (start repos) ≡ ok s
    → member repo repos ≡ true
    → find repo audit ≡ none
    → view repo s ≡ awaited repo (await (filter_rows (is_own repo) ps))
unfolding follow filter_rows find
schedule_all-awaited repo repos audit ps s h listed clean =
    let silent : is_audited repo audit ≡ false = rw (is_audited, clean) refl in
    let qs = filter_rows (is_own repo) ps in
    schedule_all-follow repo audit ps (start repos) h
    ∙ ap (λ b. follow repo b qs (view repo (start repos))) silent
    ∙ ap (λ w. follow repo false qs (at w [] [])) listed
    ∙ follow-await repo qs

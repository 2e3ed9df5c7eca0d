-- ===== src/Hooks/Checks/Arcconfig.antt =====
-- check/prevent_conduit_arcconfig.py: `PreventConduitArcconfig`, whose state is the latest
-- contents of `.arcconfig` and the override. `json.loads` is an argument: it answers the value of
-- `phabricator.uri`, or none where it raises or there is no such key, which refuses the push.
use version_control_tools_fx.Base.{
  ℕ, ◌≡◌, refl, ap, ◌∙◌, Bool, true, false, ◌||◌, List, [], ◌∷◌, Option, none, some, Text, codes,
  text_eq, any, contains, starts_with, split_on, arith, Bool-cases, inl, inr, if◌then◌else◌,
}
use version_control_tools_fx.Hooks.Extension.{
  Check, run_checks, pre_checks, check_changeset, check_changesets, post_checks,
}
use version_control_tools_fx.Hooks.Checks.{Commit}

pub record Arc : Type 0 where
  pub contents : Text
  pub override : Bool

abbrev pub overrides : Commit → Bool
overrides c = contains c.description (codes "ARCCONFIG_OVERRIDE")

abbrev pub has_arcconfig : Commit → Bool
has_arcconfig c = any (text_eq (codes ".arcconfig")) c.files

unfoldable pub check_arcconfig : Commit → Arc → Arc
check_arcconfig c s =
    if s.override || overrides c
    then record s { override = true }
    else if has_arcconfig c
    then record s { contents = c.arcconfig }
    else s

-- The test of the contents, where there is no override.
abbrev pub uri_passes : Option Text → Bool
uri_passes none = false
uri_passes (some uri) =
    starts_with uri (codes "https://phabricator-dev.allizom.org/")
    || starts_with uri (codes "https://phabricator.allizom.org/")

abbrev pub contents_pass : (Text → Option Text) → Text → Bool
contents_pass uri_of [] = true
contents_pass uri_of (c ∷ cs) = uri_passes (uri_of (c ∷ cs))

unfoldable pub prevent_conduit_arcconfig : (Text → Option Text) → Text → Check Arc Commit
unfolding check_arcconfig split_on
prevent_conduit_arcconfig uri_of root = record {
  name = codes "prevent_conduit_arcconfig";
  relevant = any (text_eq (codes "conduit-testing")) (split_on b'/' root);
  pre = λ s. record { contents = []; override = false };
  check = λ c s. (true, check_arcconfig c s);
  post_check = λ s. (if s.override then true else contents_pass uri_of s.contents, s);
}

-- The contents of the last changeset with the file, or those from before.
unfoldable pub latest : List Commit → Text → Text
latest [] contents = contents
latest (c ∷ cs) contents = latest cs (if has_arcconfig c then c.arcconfig else contents)

-- The state behind the changesets.
unfoldable pub settled : List Commit → Arc → Arc
unfolding check_arcconfig
settled [] s = s
settled (c ∷ cs) s = settled cs (check_arcconfig c s)

overriding : (c : Commit) (s : Arc) → overrides c ≡ true → (check_arcconfig c s).override ≡ true
unfolding check_arcconfig
overriding c s h = ground (arith, h)

checking :
    (c : Commit) (s : Arc)
    → s.override ≡ false
    → overrides c ≡ false
    → check_arcconfig c s
      ≡ record { contents = if has_arcconfig c then c.arcconfig else s.contents; override = false }
unfolding check_arcconfig
checking c s o h = elim (Bool-cases (has_arcconfig c)) [
  | inl file ↦ rw (check_arcconfig, o, h, file) refl
  | inr none_there ↦ rw (check_arcconfig, o, h, none_there) refl
]

answered :
    (b : Bool) (s : Arc)
    → ◌≡◌ {A = ℕ}
        (if (if◌then◌else◌ {A = Bool × Arc} b (true, s) (false, s)).0 then 0 else 1)
        (if b then 0 else 1)
answered true s = refl
answered false s = refl

module _ (uri_of : Text → Option Text) (root : Text) where
  arcconfig-changesets :
      (cs : List Commit) (s : Arc)
      → check_changesets (prevent_conduit_arcconfig uri_of root ∷ []) cs s ≡ (true, settled cs s)
  unfolding check_changesets check_changeset prevent_conduit_arcconfig settled
  arcconfig-changesets [] s = refl
  arcconfig-changesets (c ∷ cs) s = arcconfig-changesets cs (check_arcconfig c s)

  -- Where it is overridden, it stays so.
  settled-overridden :
      (cs : List Commit) (s : Arc) → s.override ≡ true → (settled cs s).override ≡ true
  unfolding settled check_arcconfig
  settled-overridden [] s h = h
  settled-overridden (c ∷ cs) s h =
      settled-overridden cs (check_arcconfig c s) (rw (check_arcconfig, h) refl)

  settled-override :
      (cs : List Commit) (s : Arc) → any overrides cs ≡ true → (settled cs s).override ≡ true
  unfolding settled
  settled-override [] s h = cc
  settled-override (c ∷ cs) s h = elim (Bool-cases (overrides c)) [
    | inl here ↦ settled-overridden cs (check_arcconfig c s) (overriding c s here)
    | inr later ↦ settled-override cs (check_arcconfig c s) (ground (arith, h, later))
  ]

  settled-plain :
      (cs : List Commit) (s : Arc)
      → s.override ≡ false
      → any overrides cs ≡ false
      → settled cs s ≡ record { contents = latest cs s.contents; override = false }
  unfolding settled latest
  settled-plain [] s o h = ap (λ b. record s { override = b }) o
  settled-plain (c ∷ cs) s o h =
      let here : overrides c ≡ false = ground (arith, h) in
      let next = if has_arcconfig c then c.arcconfig else s.contents in
      ap (settled cs) (checking c s o here)
      ∙ settled-plain cs (record { contents = next; override = false }) refl (ground (arith, h))

  -- A push is let in exactly where a changeset overrides the check, or the last change of
  -- `.arcconfig` in the push, if there is one with contents, has the address of a test server.
  pub arcconfig-run_checks :
      (cs : List Commit) (s : Arc)
      → (run_checks (prevent_conduit_arcconfig uri_of root ∷ []) cs s).0
        ≡ (if any overrides cs || contents_pass uri_of (latest cs []) then 0 else 1)
  unfolding run_checks pre_checks post_checks prevent_conduit_arcconfig
  arcconfig-run_checks cs s =
      let start : Arc = record { contents = []; override = false } in
      elim (Bool-cases (any overrides cs)) [
        | inl e ↦
            rw (run_checks, arcconfig-changesets cs start, settled-override cs start e, e) refl
        | inr e ↦
            rw (run_checks, arcconfig-changesets cs start, settled-plain cs start refl e, e)
              (answered (contents_pass uri_of (latest cs [])) _)
      ]

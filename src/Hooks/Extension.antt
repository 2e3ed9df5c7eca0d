-- ===== src/Hooks/Extension.antt =====
-- extension.py: `get_checks`, `pretxnchangegroup` and `pretxnclose`. The attributes of all checks
-- are one state `S`; `C` is the type of a changeset, and the pushed ones are a list.
pub mod Calls
use version_control_tools_fx.Base.{
  ℕ, Bool, true, false, not, ◌&&◌, ◌||◌, List, [], ◌∷◌, Option, none, some, Text, codes, text_eq,
  if◌then◌else◌,
}

-- What `PreTxnChangegroupCheck` and `PreTxnCloseCheck` ask of a check. A method answers, and
-- leaves the state.
pub record Check (S C : Type 0) : Type 0 where
  pub name : Text
  pub relevant : Bool
  pub pre : S → S
  pub check : C → S → Bool × S
  pub post_check : S → Bool × S

-- `override in (a, b)`
abbrev pub one_of : Option Text → Text → Text → Bool
one_of none a b = false
one_of (some t) a b = text_eq t a || text_eq t b

abbrev pub force_enable : Option Text → Bool
force_enable override = one_of override (codes "enable") (codes "true")

abbrev pub force_disable : Option Text → Bool
force_disable override =
    not (force_enable override) && one_of override (codes "disable") (codes "false")

abbrev pub exit : {S : Type 0} → Bool × S → ℕ × S
exit (passes, s) = (if passes then 0 else 1, s)

module _ {S C : Type 0} where
  -- The loop over the classes, with the section `mozilla` of the configuration.
  unfoldable pub active_checks : (Text → Option Text) → List (Check S C) → List (Check S C)
  active_checks config [] = []
  active_checks config (c ∷ cs) =
      let rest = active_checks config cs in
      let override = config c.name in
      if c.relevant && force_disable override
      then rest
      else if not c.relevant && force_enable override
      then c ∷ rest
      else if c.relevant
      then c ∷ rest
      else rest

  -- `get_checks`
  unfoldable pub get_checks :
      Text → Bool → (Text → Option Text) → List (Check S C) → List (Check S C)
  unfolding active_checks
  get_checks source hosted config classes =
      if text_eq source (codes "pull") || text_eq source (codes "strip")
      then []
      else if not hosted
      then []
      else active_checks config classes

  unfoldable pub pre_checks : List (Check S C) → S → S
  pre_checks [] s = s
  pre_checks (k ∷ ks) s = pre_checks ks (k.pre s)

  -- The inner loop over the checks.
  unfoldable pub check_changeset : List (Check S C) → C → S → Bool × S
  check_changeset [] c s = (true, s)
  check_changeset (k ∷ ks) c s =
      let (passes, s') = k.check c s in
      let rest = check_changeset ks c s' in if passes then rest else (false, s')

  -- The loop over the changesets.
  unfoldable pub check_changesets : List (Check S C) → List C → S → Bool × S
  unfolding check_changeset
  check_changesets ks [] s = (true, s)
  check_changesets ks (c ∷ cs) s =
      let (passes, s') = check_changeset ks c s in
      let rest = check_changesets ks cs s' in if passes then rest else (false, s')

  unfoldable pub post_checks : List (Check S C) → S → Bool × S
  post_checks [] s = (true, s)
  post_checks (k ∷ ks) s =
      let (passes, s') = k.post_check s in
      let rest = post_checks ks s' in if passes then rest else (false, s')

  -- The three loops that both hooks run; 1 refuses the push.
  unfoldable pub run_checks : List (Check S C) → List C → S → ℕ × S
  unfolding pre_checks check_changesets post_checks
  run_checks ks cs s =
      let (passes, s') = check_changesets ks cs (pre_checks ks s) in
      if passes then exit (post_checks ks s') else (1, s')

  -- `pretxnchangegroup`
  unfoldable pub pretxnchangegroup :
      Text → Bool → (Text → Option Text) → List (Check S C) → List C → S → ℕ × S
  unfolding get_checks run_checks
  pretxnchangegroup source hosted config classes cs s =
      run_checks (get_checks source hosted config classes) cs s

  -- `pretxnclose`
  unfoldable pub pretxnclose :
      Text → Text → Bool → (Text → Option Text) → List (Check S C) → List C → S → ℕ × S
  unfolding get_checks run_checks
  pretxnclose txnname source hosted config classes cs s =
      if text_eq txnname (codes "push")
      then run_checks (get_checks source hosted config classes) cs s
      else (0, s)

-- ===== src/Config/Rewrite/Laws.antt =====
-- What the rewrites of config.py compute.
use version_control_tools_fx.Base.{
  suc, ◌-◌, ◌≡◌, refl, ap, ◌∙◌, ◌≢◌, ◌⊎◌, false, [], ◌∷◌, ◌++◌, none, some, Text, starts_with,
  contains, starts_with-append, starts_with-split, length, drop-append, Bool-cases, inl, inr, arith,
}
use version_control_tools_fx.Config.Rewrite.{
  Rules, replace_from, replace, parse_wire_repo_path, get_replication_path_rewrite,
  get_pull_url_from_repo_path, get_public_url_from_wire_path,
}

-- The rule that decides: the first whose source is a prefix of the path, with what follows it.
pub data FirstRule : Rules → Text → Text → Text → Type 0 where
  first :
      {source dest rest path : Text} {rules : Rules}
      → path ≡ source ++ rest
      → FirstRule ((source, dest) ∷ rules) path dest rest
  later :
      {source dest d rest path : Text} {rules : Rules}
      → starts_with path source ≡ false
      → FirstRule rules path d rest
      → FirstRule ((source, dest) ∷ rules) path d rest

abbrev pub NoRule : Rules → Text → Type 0
NoRule [] path = Unit
NoRule ((source, dest) ∷ rules) path = (starts_with path source ≡ false) × NoRule rules path

-- A URL is built from the first rule that fits, with the rest of the path kept as it is.
pub public_url_of_FirstRule :
    {rules : Rules} {path dest rest : Text}
    → FirstRule rules path dest rest
    → get_public_url_from_wire_path rules path ≡ some (dest ++ rest)
unfolding get_public_url_from_wire_path
public_url_of_FirstRule (first {source} {dest} {rest} e) =
    rw (e, starts_with-append source rest, drop-append source rest)
public_url_of_FirstRule (later miss f) = rw miss (public_url_of_FirstRule f)

-- With no rule that fits there is no URL.
pub public_url_of_NoRule :
    (rules : Rules) (path : Text)
    → NoRule rules path
    → get_public_url_from_wire_path rules path ≡ none
unfolding get_public_url_from_wire_path
public_url_of_NoRule [] path h = refl
public_url_of_NoRule ((source, dest) ∷ rules) path h = rw h.0 (public_url_of_NoRule rules path h.1)

-- Either one rule is the first that fits or none fits.
pub rule_cases :
    (rules : Rules) (path : Text)
    → ((dest : Text) × (rest : Text) × FirstRule rules path dest rest) ⊎ NoRule rules path
rule_cases [] path = inr tt
rule_cases ((source, dest) ∷ rules) path = elim (Bool-cases (starts_with path source)) [
  | inl fits ↦ let (rest, e) = starts_with-split path source fits in inl (dest, rest, first e)
  | inr miss ↦ elim (rule_cases rules path) [
    | inl (d, rest, f) ↦ inl (d, rest, later miss f)
    | inr none_fits ↦ inr (miss, none_fits)
  ]
]

-- The three URL methods are one function of their rules.
pub replication_path_eq :
    (rules : Rules) (path : Text)
    → get_replication_path_rewrite rules path ≡ get_public_url_from_wire_path rules path
unfolding get_replication_path_rewrite get_public_url_from_wire_path
replication_path_eq [] path = refl
replication_path_eq ((source, dest) ∷ rules) path = ground (arith, replication_path_eq rules path)

pub pull_url_eq :
    (rules : Rules) (path : Text)
    → get_pull_url_from_repo_path rules path ≡ get_public_url_from_wire_path rules path
unfolding get_pull_url_from_repo_path get_public_url_from_wire_path
pull_url_eq [] path = refl
pull_url_eq ((source, dest) ∷ rules) path = ground (arith, pull_url_eq rules path)

-- A match that is being skipped is read and not written.
replace_from-skip :
    (src dst xs ys : Text) → replace_from (length xs) src dst (xs ++ ys) ≡ replace_from 0 src dst ys
unfolding replace_from
replace_from-skip src dst [] ys = refl
replace_from-skip src dst (x ∷ xs) ys = replace_from-skip src dst xs ys

replace_from-absent :
    (src dst t : Text) → src ≢ [] → contains t src ≡ false → replace_from 0 src dst t ≡ t
unfolding replace_from contains
replace_from-absent src dst [] ne h = refl
replace_from-absent src dst (c ∷ cs) ne h = ground (arith, replace_from-absent src dst cs ne)

-- A leading match is replaced, and the rest of the text is searched again.
pub replace-prefix :
    (src dst rest : Text) → src ≢ [] → replace (src ++ rest) src dst ≡ dst ++ replace rest src dst
unfolding replace replace_from
replace-prefix [] dst rest ne = absurd (ne refl)
replace-prefix (s ∷ ss) dst rest ne =
    let shorter : suc (length ss) - 1 ≡ length ss = omega arith in
    rw (starts_with-append (s ∷ ss) rest, shorter)
      (ap (λ r. dst ++ r) (replace_from-skip (s ∷ ss) dst ss rest))

-- A text that does not hold the source stays as it is.
pub replace-absent : (t src dst : Text) → src ≢ [] → contains t src ≡ false → replace t src dst ≡ t
unfolding replace
replace-absent t [] dst ne h = absurd (ne refl)
replace-absent t (s ∷ ss) dst ne h = replace_from-absent (s ∷ ss) dst t ne h

-- A wire path whose tail does not hold the rule's source is rewritten at its front only.
pub parse_wire_of_first :
    (rules : Rules) (source dest rest : Text)
    → source ≢ []
    → contains rest source ≡ false
    → parse_wire_repo_path ((source, dest) ∷ rules) (source ++ rest) ≡ dest ++ rest
unfolding parse_wire_repo_path
parse_wire_of_first rules source dest rest ne once = rw (starts_with-append source rest) (
    replace-prefix source dest rest ne
    ∙ ap (λ r. dest ++ r) (replace-absent rest source dest ne once))

-- A local path that is rewritten to a wire path by the first rule is read back to itself by the
-- inverse rule, where the wire prefix is not empty and the rest of the path does not hold it.
parse_wire-replication_rewrite :
    (local_root wire_root rest : Text) (rules others : Rules)
    → wire_root ≢ []
    → contains rest wire_root ≡ false
    → (wire : Text) × (get_replication_path_rewrite
          ((local_root, wire_root) ∷ rules)
          (local_root ++ rest)
        ≡ some wire)
      × (parse_wire_repo_path ((wire_root, local_root) ∷ others) wire ≡ local_root ++ rest)
unfolding get_replication_path_rewrite
parse_wire-replication_rewrite local_root wire_root rest rules others ne once = (
  wire_root ++ rest,
  rw (starts_with-append local_root rest, drop-append local_root rest),
  parse_wire_of_first others wire_root local_root rest ne once,
)

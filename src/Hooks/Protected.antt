-- ===== src/Hooks/Protected.antt =====
-- prevent_nspr_nss_changes.py and prevent_string_changes.py, over the changesets of a push.
use version_control_tools_fx.Base.{
  ℕ, ◌≡◌, refl, sym, ap, Bool, true, false, not, ◌&&◌, ◌||◌, List, [], ◌∷◌, ◌++◌, Text, codes, any,
  ltb, starts_with, ends_with, contains, arith, if◌then◌else◌,
}
use version_control_tools_fx.Hooks.Checks.{Commit, is_uplift}
use version_control_tools_fx.Hooks.Guards.{lower, not_a_push}

-- `any(f.startswith(directory) for f in ctx.files())` without the release's word
abbrev pub alters : Text → Text → Commit → Bool
alters directory release c =
    any (λ (f : Text). starts_with f directory) c.files && not (contains c.description release)

-- `nspr_nodes` or `nss_nodes`
unfoldable pub protected_nodes : Text → Text → List Commit → List Text
protected_nodes directory release [] = []
protected_nodes directory release (c ∷ cs) =
    let rest = protected_nodes directory release cs in
    if ltb 1 c.parents then rest else if alters directory release c then c.node ∷ rest else rest

abbrev pub nspr_nodes : List Commit → List Text
nspr_nodes cs = protected_nodes (codes "nsprpub/") (codes "UPGRADE_NSPR_RELEASE") cs

abbrev pub nss_nodes : List Commit → List Text
nss_nodes cs = protected_nodes (codes "security/nss/") (codes "UPGRADE_NSS_RELEASE") cs

abbrev pub some_nodes : List Text → Bool
some_nodes [] = false
some_nodes (n ∷ ns) = true

-- `hook` of prevent_nspr_nss_changes.py, with the description of the tip
unfoldable pub prevent_nspr_nss_changes : Text → Text → List Commit → ℕ
unfolding protected_nodes
prevent_nspr_nss_changes source tip cs =
    if not_a_push source
    then 0
    else if is_uplift tip
    then 0
    else if some_nodes (nspr_nodes cs) || some_nodes (nss_nodes cs)
    then 1
    else 0

-- A changeset that is no merge and alters one of the directories without its word.
abbrev pub protected : Commit → Bool
protected c =
    not (ltb 1 c.parents)
    && (alters (codes "nsprpub/") (codes "UPGRADE_NSPR_RELEASE") c
        || alters (codes "security/nss/") (codes "UPGRADE_NSS_RELEASE") c)

some_nodes-protected :
    (directory release : Text) (cs : List Commit)
    → some_nodes (protected_nodes directory release cs)
      ≡ any (λ c. not (ltb 1 c.parents) && alters directory release c) cs
unfolding protected_nodes
some_nodes-protected directory release [] = refl
some_nodes-protected directory release (c ∷ cs) =
    ground (arith, some_nodes-protected directory release cs)

any_or :
    (p q r : Commit → Bool) (cs : List Commit)
    → any (λ c. p c && (q c || r c)) cs ≡ (any (λ c. p c && q c) cs || any (λ c. p c && r c) cs)
any_or p q r [] = refl
any_or p q r (c ∷ cs) = ground (arith, any_or p q r cs)

-- A push, neither pull nor strip, whose tip is no uplift is refused exactly where a changeset of
-- it, no merge, alters
-- nsprpub/ or security/nss/ without the word that belongs to it.
pub nspr_nss-eq :
    (source tip : Text) (cs : List Commit)
    → not_a_push source ≡ false
    → is_uplift tip ≡ false
    → prevent_nspr_nss_changes source tip cs ≡ (if any protected cs then 1 else 0)
unfolding prevent_nspr_nss_changes
nspr_nss-eq source tip cs h u =
    let nspr = some_nodes-protected (codes "nsprpub/") (codes "UPGRADE_NSPR_RELEASE") cs in
    let nss = some_nodes-protected (codes "security/nss/") (codes "UPGRADE_NSS_RELEASE") cs in
    rw (h, u, nspr, nss)
      (ap (λ b. if b then 1 else 0)
        (sym (
          any_or (λ c. not (ltb 1 c.parents))
            (alters (codes "nsprpub/") (codes "UPGRADE_NSPR_RELEASE"))
            (alters (codes "security/nss/") (codes "UPGRADE_NSS_RELEASE")) cs)))

-- Files of strings, and the approval in a description.
abbrev pub is_l10n : Text → Bool
is_l10n f =
    contains f (codes "locales/en-US/")
    && (ends_with f (codes ".dtd")
        || ends_with f (codes ".ftl")
        || ends_with f (codes ".ini")
        || ends_with f (codes ".properties"))

abbrev pub approves : Text → Bool
approves description = contains (lower description) (codes "l10n=")

-- The files that the error lists.
unfoldable pub altered_files : Bool → List Text → List Text
altered_files approved [] = []
altered_files approved (f ∷ fs) =
    let rest = altered_files approved fs in if is_l10n f && not approved then f ∷ rest else rest

unfoldable pub string_errors : Text → List Commit → List Text
unfolding altered_files
string_errors tip [] = []
string_errors tip (c ∷ cs) =
    altered_files (approves c.description || approves tip) c.files ++ string_errors tip cs

-- `hook` of prevent_string_changes.py, with the description of the tip
unfoldable pub prevent_string_changes : Text → Text → List Commit → ℕ
unfolding string_errors
prevent_string_changes source tip cs =
    if not_a_push source
    then 0
    else if is_uplift tip
    then 0
    else if some_nodes (string_errors tip cs)
    then 1
    else 0

some_altered :
    (approved : Bool) (fs : List Text)
    → some_nodes (altered_files approved fs) ≡ (any is_l10n fs && not approved)
unfolding altered_files
some_altered approved [] = refl
some_altered approved (f ∷ fs) = ground (arith, some_altered approved fs)

some-append : (xs ys : List Text) → some_nodes (xs ++ ys) ≡ (some_nodes xs || some_nodes ys)
some-append [] ys = refl
some-append (x ∷ xs) ys = refl

some_errors :
    (tip : Text) (cs : List Commit)
    → some_nodes (string_errors tip cs)
      ≡ any (λ c. any is_l10n c.files && not (approves c.description || approves tip)) cs
unfolding string_errors
some_errors tip [] = refl
some_errors tip (c ∷ cs) =
    rw
      (
        some-append (altered_files (approves c.description || approves tip) c.files)
            (string_errors tip cs),
        some_altered (approves c.description || approves tip) c.files,
        some_errors tip cs,
      )
      refl

-- A push, neither pull nor strip, whose tip is no uplift is refused exactly where a changeset of it
-- alters a file of strings, and neither its description nor that of the tip has an approval.
pub string_changes-eq :
    (source tip : Text) (cs : List Commit)
    → not_a_push source ≡ false
    → is_uplift tip ≡ false
    → prevent_string_changes source tip cs ≡ (
        if any (λ c. any is_l10n c.files && not (approves c.description || approves tip)) cs
        then 1
        else 0)
unfolding prevent_string_changes
string_changes-eq source tip cs h u = rw (h, u, some_errors tip cs) refl

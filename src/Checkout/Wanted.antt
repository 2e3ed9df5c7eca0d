-- ===== src/Checkout/Wanted.antt =====
-- Which revision a call looks up.
use version_control_tools_fx.Base.{
  ◌≡◌, refl, sym, ap, ◌∙◌, true, ◌⊎◌, inl, inr, Option, none, some, Text, codes, starts_with,
  Bool-cases,
}
use version_control_tools_fx.Checkout.Steps.{
  Exception, abort, ssl_error, socket_timeout, repo_lookup_error, revlog_error, other, http_error,
  url_error, repo_error, response_error, Answer, gives, raises, State, Step, next, again, raised, M,
  ◌>>=◌, pure, raise, answered, timeit,
}
use version_control_tools_fx.Checkout.Sanity.{is_given}
use version_control_tools_fx.Checkout.Failures.{caught, try_, deletesharedstore}
use version_control_tools_fx.Checkout.Attempt.{
  Options, Answers, effect, find_local, local_answer, pull_unless, pull_wanted, or_pull,
  find_revision,
}
use version_control_tools_fx.Checkout.Sane.{then-eq-next}
use version_control_tools_fx.Checkout.Stored.{bind-eq-next}
use version_control_tools_fx.Checkout.Leaves.{Leaves, raise-Leaves, on_failure-Leaves}

try-next :
    {A : Type 0} (m : M A) (h : Exception → M A) (s : State) {a : A} {s' : State}
    → ((e : Exception) → Leaves (h e))
    → try_ m h s ≡ next a s'
    → m s ≡ next a s'
unfolding try_
try-next {A} m h s {a} {s'} never e = parts (m s) refl e
  where
    parts : (r : Step A) → m s ≡ r → caught r h ≡ next a s' → m s ≡ next a s'
    parts (next x s1) is g = is ∙ g
    parts (again s1) is g = absurd (cc g)
    parts (raised x s1) is g = absurd (never x s1 s' a g)

answered-next :
    {A : Type 0} (r : Answer A) (s : State) {a : A} {s' : State}
    → answered r s ≡ next a s'
    → (r ≡ gives a) × (s' ≡ s)
unfolding answered pure raise
answered-next (gives x) s h = (ap gives (cc h), cc h)
answered-next (raises e) s h = absurd (cc h)

pure-is : {A : Type 0} (x : A) (s : State) {a : A} {s' : State} → pure x s ≡ next a s' → x ≡ a
unfolding pure
pure-is x s h = cc h

pull_unless-next :
    (a : Answers) (rev : Text) (s : State) {r : Text} {s' : State}
    → pull_unless a rev s ≡ next r s'
    → rev ≡ r
pull_unless-next a rev s h = elim (Bool-cases (a.has rev)) [
  | inl there ↦ pure-is rev s (rw (pull_unless, there) at h)
  | inr missing ↦
      let (pulled, s1, _, h1) =
        bind-eq-next (timeit (codes "pull") (codes "pull") (effect a.pull)) _ s
          (rw (pull_unless, missing) at h) in
      let (_, s2, _, h2) = then-eq-next _ (pure rev) s1 h1 in pure-is rev s2 h2
]

-- A revision of the repository begins with the one that was asked for.
local-next :
    (revision : Text) (r : Answer Text) (s : State) {found : Option Text} {s' : State}
    → local_answer revision r s ≡ next found s'
    → (found ≡ none)
      ⊎ ((rev : Text) × (found ≡ some rev) × (r ≡ gives rev) × (starts_with rev revision ≡ true))
unfolding pure raise
local-next revision (gives hex) s h = elim (Bool-cases (starts_with hex revision)) [
  | inl begins ↦ inr (hex, sym (pure-is (some hex) s (rw begins at h)), refl, begins)
  | inr differs ↦ absurd (raise-Leaves _ s _ _ (rw differs at h))
]
local-next revision (raises repo_lookup_error) s h = inl (cc h)
local-next revision (raises (abort m)) s h = absurd (cc h)
local-next revision (raises ssl_error) s h = absurd (cc h)
local-next revision (raises socket_timeout) s h = absurd (cc h)
local-next revision (raises (http_error code)) s h = absurd (cc h)
local-next revision (raises (url_error b)) s h = absurd (cc h)
local-next revision (raises revlog_error) s h = absurd (cc h)
local-next revision (raises other) s h = absurd (cc h)
local-next revision (raises (repo_error m)) s h = absurd (cc h)
local-next revision (raises (response_error m)) s h = absurd (cc h)

-- The revision is the repository's own and begins with the one that was asked for, or it is what the
-- remote made of the revision or the branch.
abbrev pub IsWanted : Options → Answers → Text → Type 0
IsWanted o a rev =
    ((a.local ≡ gives rev) × (starts_with rev o.revision ≡ true)) ⊎ (a.remote ≡ gives rev)

or_pull-next :
    (o : Options) (a : Answers) (s : State) {rev : Text} {s' : State}
    → or_pull o a none s ≡ next rev s'
    → IsWanted o a rev
unfolding pull_wanted
or_pull-next o a s h =
    let tried =
      try-next (answered a.remote >>= pull_unless a) _ s
        (λ e. on_failure-Leaves o.networkattemptlimit a.recover deletesharedstore e) h in
    let (named, s1, first, rest) = bind-eq-next (answered a.remote) (pull_unless a) s tried in
    let (is, _) = answered-next a.remote s first in
    inr (is ∙ ap gives (pull_unless-next a named s1 rest))

pub find_revision-next :
    (o : Options) (a : Answers) (s : State) {rev : Text} {s' : State}
    → find_revision o a s ≡ next rev s'
    → IsWanted o a rev
unfolding find_revision find_local
find_revision-next o a s {rev} {s'} h =
    let (found, s1, first, rest) = bind-eq-next (find_local o a) (or_pull o a) s h in
    elim (Bool-cases (is_given o.revision)) [
      | inr no_revision ↦
          let it : none ≡ found = pure-is none s (rw (find_local, no_revision) at first) in
          or_pull-next o a s1 (ap (λ f. or_pull o a f s1) it ∙ rest)
      | inl revision ↦ elim (local-next o.revision a.local s (rw (find_local, revision) at first)) [
        | inl missing ↦ or_pull-next o a s1 (ap (λ f. or_pull o a f s1) (sym missing) ∙ rest)
        | inr (r, is, local, begins) ↦
            let same : r ≡ rev = pure-is r s1 (ap (λ f. or_pull o a f s1) (sym is) ∙ rest) in
            inl (local ∙ ap gives same, ap (λ t. starts_with t o.revision) (sym same) ∙ begins)
      ]
    ]

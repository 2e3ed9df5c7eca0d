-- ===== src/Checkout/Report.antt =====
-- Which operations are reported.
use version_control_tools_fx.Base.{
  ◌≡◌, refl, Bool, false, ◌||◌, ◌&&◌, List, ◌++◌, Text, codes, any, contains, starts_with,
  Bool-cases, inl, inr, arith, ℕ,
}
use version_control_tools_fx.Hooks.Roots.{member}
use version_control_tools_fx.Checkout.{run, state_of, begin, op_name, by_behavior, overall_ops}
use version_control_tools_fx.Checkout.Steps.{Disk, State}
use version_control_tools_fx.Checkout.Attempt.{Options, Answers}
use version_control_tools_fx.Checkout.Phases.{Stable}
use version_control_tools_fx.Checkout.Runs.{run-kept}

abbrev Unnoted : State → Type 0
Unnoted s =
    (member (codes "sparse-update") s.behaviors ≡ false)
    × (member (codes "create-store") s.behaviors ≡ false)

Unnoted-Stable : (limit : ℕ) → Stable limit Unnoted
unfolding member
Unnoted-Stable limit = record {
  files = λ s d p. p;
  times = λ s ts p. p;
  behavior = λ s b apart p. (rw apart.0 p.0, rw apart.1 p.1);
  attempt = λ s below p. p;
}

abbrev names_lost : Text → Bool
names_lost name = contains name (codes "_sparsecheckout") || contains name (codes "overall_clone")

-- A name that says nothing of a sparse checkout or of a clone, whatever `record_op` puts behind it.
abbrev IsFull : Text → Type 0
IsFull name =
    (names_lost name ≡ false)
    × (names_lost (name ++ codes "_rmstore") ≡ false)
    × (names_lost (name ++ codes "_rmwdir") ≡ false)
    × (names_lost ((name ++ codes "_rmstore") ++ codes "_rmwdir") ≡ false)

op_name-IsFull : (bs : List Text) (name : Text) → IsFull name → names_lost (op_name bs name) ≡ false
unfolding op_name
op_name-IsFull bs name (plain, store, wdir, both) =
    elim (Bool-cases (member (codes "remove-store") bs)) [
      | inl s ↦ elim (Bool-cases (member (codes "remove-wdir") bs)) [
        | inl w ↦ rw (op_name, s, w) both
        | inr w ↦ rw (op_name, s, w) store
      ]
      | inr s ↦ elim (Bool-cases (member (codes "remove-wdir") bs)) [
        | inl w ↦ rw (op_name, s, w) wdir
        | inr w ↦ rw (op_name, s, w) plain
      ]
    ]

-- The name that is chosen by a behavior.
by_behavior-IsFull :
    (bs : List Text) (b yes_name no_name : Text)
    → IsFull yes_name
    → IsFull no_name
    → names_lost (op_name bs (by_behavior bs b yes_name no_name)) ≡ false
by_behavior-IsFull bs b yes_name no_name y n = elim (Bool-cases (member b bs)) [
  | inl there ↦ rw there (op_name-IsFull bs yes_name y)
  | inr missing ↦ rw missing (op_name-IsFull bs no_name n)
]

-- Without these behaviors no operation of a sparse checkout and none of a clone is reported.
overall_ops-full :
    (bs : List Text)
    → member (codes "sparse-update") bs ≡ false
    → member (codes "create-store") bs ≡ false
    → any names_lost (overall_ops bs) ≡ false
unfolding overall_ops contains starts_with
overall_ops-full bs h k =
    elim (Bool-cases (member (codes "clone") bs && member (codes "create-store") bs)) [
      | inl cloned ↦ absurd (ground (arith, cloned, k))
      | inr other ↦ elim (Bool-cases (member (codes "pull") bs || member (codes "clone") bs)) [
        | inl pulled ↦
            let first = op_name-IsFull bs (codes "overall_pull") (refl, refl, refl, refl) in
            let second =
              op_name-IsFull bs (codes "overall_pull_fullcheckout") (refl, refl, refl, refl) in
            let third =
              by_behavior-IsFull bs (codes "empty-wdir") (codes "overall_pull_emptywdir")
                (codes "overall_pull_populatedwdir") (refl, refl, refl, refl)
                (refl, refl, refl, refl) in
            rw (overall_ops, other, pulled, h, first, second, third) refl
        | inr neither ↦
            let first = op_name-IsFull bs (codes "overall_nopull") (refl, refl, refl, refl) in
            let second =
              op_name-IsFull bs (codes "overall_nopull_fullcheckout") (refl, refl, refl, refl) in
            let third =
              by_behavior-IsFull bs (codes "empty-wdir") (codes "overall_nopull_emptywdir")
                (codes "overall_nopull_populatedwdir") (refl, refl, refl, refl)
                (refl, refl, refl, refl) in
            rw (overall_ops, other, neither, h, first, second, third) refl
      ]
    ]

-- Whatever is answered, the report of a run names no operation of a sparse checkout, also where a
-- sparse profile was asked for, and none of a clone, also where it cloned into a new store.
pub report-full :
    (o : Options) (answers : List Answers) (d : Disk)
    → any
        (λ name. contains name (codes "_sparsecheckout") || contains name (codes "overall_clone"))
        (overall_ops (state_of (run o answers (begin d))).behaviors)
      ≡ false
unfolding member
report-full o answers d =
    let (sparse, store) =
      run-kept o Unnoted (Unnoted-Stable o.networkattemptlimit) answers (begin d) (refl, refl) in
    overall_ops-full (state_of (run o answers (begin d))).behaviors sparse store

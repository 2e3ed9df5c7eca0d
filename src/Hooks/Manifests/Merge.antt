-- ===== src/Hooks/Manifests/Merge.antt =====
-- The files that `get_changed_files` finds.
use version_control_tools_fx.Base.{
  ℕ, suc, zero, ◌+◌, ◌≤◌, ◌≡◌, refl, sym, ap, ◌∙◌, Bool, true, false, not, List, [], ◌∷◌, Option,
  none, some, Text, text_eq, text_eq_iff, All, length, if◌then◌else◌, arith, Bool-cases, inl, inr,
}
use version_control_tools_fx.Hooks.Roots.{member}
use version_control_tools_fx.Hooks.Manifests.{
  Line, line_eq, text_ltb, changed_within, get_changed_files,
}
use version_control_tools_fx.Hooks.Manifests.Order.{
  text_ltb-text_eq, text_ltb_trans, text_ltb_total,
}

-- What a manifest says of a file.
unfoldable pub entry : Text → List Line → Option Text
entry f [] = none
entry f (l ∷ ls) = if text_eq f l.0 then some l.1 else entry f ls

abbrev pub entry_eq : Option Text → Option Text → Bool
entry_eq none none = true
entry_eq none (some b) = false
entry_eq (some a) none = false
entry_eq (some a) (some b) = text_eq a b

abbrev Behind : Text → List Line → Type 0
Behind f ls = All (λ (l : Line). text_ltb f l.0 ≡ true) ls

-- The files of a manifest rise.
abbrev pub IsSorted : List Line → Type 0
IsSorted [] = Unit
IsSorted (l ∷ ls) = Behind l.0 ls × IsSorted ls

entry-Behind : (f : Text) (ls : List Line) → Behind f ls → entry f ls ≡ none
unfolding entry
entry-Behind f [] h = refl
entry-Behind f (l ∷ ls) h = rw (text_ltb-text_eq f l.0 h.0) (entry-Behind f ls h.1)

Behind-trans : (f g : Text) (ls : List Line) → text_ltb f g ≡ true → Behind g ls → Behind f ls
Behind-trans f g [] h b = tt
Behind-trans f g (l ∷ ls) h b = (text_ltb_trans f g l.0 h b.0, Behind-trans f g ls h b.1)

-- A file is listed exactly where the manifests say something else of it.
abbrev Right : Text → List Text → List Line → List Line → Type 0
Right f changed ls ms = member f changed ≡ not (entry_eq (entry f ls) (entry f ms))

Right-first :
    (f : Text) (changed : List Text) (l : Line) (ls ms : List Line)
    → Behind l.0 ms
    → Right f changed ls ms
    → Right f (l.0 ∷ changed) (l ∷ ls) ms
unfolding member entry
Right-first f changed l ls ms b h = elim (Bool-cases (text_eq f l.0)) [
  | inl same ↦
      let none_there : entry f ms ≡ none =
        ap (λ (t : Text). entry t ms) ((text_eq_iff f l.0).0 same) ∙ entry-Behind l.0 ms b in
      rw (same, none_there) refl
  | inr other ↦ rw other h
]

Right-second :
    (f : Text) (changed : List Text) (m : Line) (ls ms : List Line)
    → Behind m.0 ls
    → Right f changed ls ms
    → Right f (m.0 ∷ changed) ls (m ∷ ms)
unfolding member entry
Right-second f changed m ls ms b h = elim (Bool-cases (text_eq f m.0)) [
  | inl same ↦
      let none_there : entry f ls ≡ none =
        ap (λ (t : Text). entry t ls) ((text_eq_iff f m.0).0 same) ∙ entry-Behind m.0 ls b in
      rw (same, none_there) refl
  | inr other ↦ rw other h
]

entry-none : (f g : Text) (ls : List Line) → text_eq f g ≡ true → Behind g ls → entry f ls ≡ none
entry-none f g ls same b =
    ap (λ (t : Text). entry t ls) ((text_eq_iff f g).0 same) ∙ entry-Behind g ls b

-- Both manifests say the same of their first file.
Right-same :
    (f : Text) (changed : List Text) (l m : Line) (ls ms : List Line)
    → line_eq l m ≡ true
    → Behind l.0 ls
    → Behind m.0 ms
    → Right f changed ls ms
    → Right f changed (l ∷ ls) (m ∷ ms)
unfolding entry
Right-same f changed l m ls ms e a b h =
    let file : l.0 ≡ m.0 = (text_eq_iff l.0 m.0).0 (ground (arith, e)) in
    let value : text_eq l.1 m.1 ≡ true = ground (arith, e) in
    elim (Bool-cases (text_eq f l.0)) [
      | inl same ↦
          let also : text_eq f m.0 ≡ true = ap (text_eq f) (sym file) ∙ same in
          rw (same, also, value)
            (h ∙ (rw (entry-none f l.0 ls same a, entry-none f m.0 ms also b) refl))
      | inr other ↦
          let also : text_eq f m.0 ≡ false = ap (text_eq f) (sym file) ∙ other in rw (other, also) h
    ]

-- They say something else of it.
Right-changed :
    (f : Text) (changed : List Text) (l m : Line) (ls ms : List Line)
    → line_eq l m ≡ false
    → text_eq l.0 m.0 ≡ true
    → Right f changed ls ms
    → Right f (m.0 ∷ changed) (l ∷ ls) (m ∷ ms)
unfolding entry member
Right-changed f changed l m ls ms e eq h =
    let file : l.0 ≡ m.0 = (text_eq_iff l.0 m.0).0 eq in
    let value : text_eq l.1 m.1 ≡ false = ground (arith, e, eq) in
    elim (Bool-cases (text_eq f l.0)) [
      | inl same ↦
          let also : text_eq f m.0 ≡ true = ap (text_eq f) (sym file) ∙ same in
          rw (same, also, value) refl
      | inr other ↦
          let also : text_eq f m.0 ≡ false = ap (text_eq f) (sym file) ∙ other in rw (other, also) h
    ]

Right-none : (f : Text) → Right f [] [] []
unfolding member entry
Right-none f = refl

changed_within-Right :
    (f : Text) (k : ℕ) (ls ms : List Line)
    → length ls + length ms ≤ k
    → IsSorted ls
    → IsSorted ms
    → Right f (changed_within k ls ms) ls ms
unfolding changed_within
changed_within-Right f zero [] [] e a b = Right-none f
changed_within-Right f zero [] (m ∷ ms) e a b = absurd (omega (arith, e))
changed_within-Right f zero (l ∷ ls) ms e a b = absurd (omega (arith, e))
changed_within-Right f (suc k) [] [] e a b = Right-none f
changed_within-Right f (suc k) [] (m ∷ ms) e a b =
    Right-second f (changed_within k [] ms) m [] ms tt
      (changed_within-Right f k [] ms (omega (arith, e)) tt b.1)
changed_within-Right f (suc k) (l ∷ ls) [] e a b =
    Right-first f (changed_within k ls []) l ls [] tt
      (changed_within-Right f k ls [] (omega (arith, e)) a.1 tt)
changed_within-Right f (suc k) (l ∷ ls) (m ∷ ms) e a b = elim (Bool-cases (line_eq l m)) [
  | inl same ↦
      rw (changed_within, same)
        (Right-same f (changed_within k ls ms) l m ls ms same a.0 b.0
          (changed_within-Right f k ls ms (omega (arith, e)) a.1 b.1))
  | inr differs ↦ elim (Bool-cases (text_eq l.0 m.0)) [
    | inl file ↦
        rw (changed_within, differs, file)
          (Right-changed f (changed_within k ls ms) l m ls ms differs file
            (changed_within-Right f k ls ms (omega (arith, e)) a.1 b.1))
    | inr apart ↦ elim (Bool-cases (text_ltb l.0 m.0)) [
      | inl less ↦
          rw (changed_within, differs, apart, less)
            (Right-first f (changed_within k ls (m ∷ ms)) l ls (m ∷ ms)
              (less, Behind-trans l.0 m.0 ms less b.0)
              (changed_within-Right f k ls (m ∷ ms) (omega (arith, e)) a.1 b))
      | inr more ↦
          let less = text_ltb_total l.0 m.0 apart more in
          rw (changed_within, differs, apart, more)
            (Right-second f (changed_within k (l ∷ ls) ms) m (l ∷ ls) ms
              (less, Behind-trans m.0 l.0 ls less a.0)
              (changed_within-Right f k (l ∷ ls) ms (omega (arith, e)) a b.1))
    ]
  ]
]

-- Of manifests whose files rise, the changed files are exactly those of which the manifests say
-- something else, a file that only one of them has included.
pub get_changed_files-entry :
    (f : Text) (ls ms : List Line)
    → IsSorted ls
    → IsSorted ms
    → member f (get_changed_files ls ms) ≡ not (entry_eq (entry f ls) (entry f ms))
unfolding get_changed_files
get_changed_files-entry f ls ms a b =
    changed_within-Right f (length ls + length ms) ls ms (omega arith) a b

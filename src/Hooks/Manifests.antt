-- ===== src/Hooks/Manifests.antt =====
-- changelog_correctness.py: `get_changed_files` and `hook`. A line of a manifest is its file and
-- what stands behind the NUL.
pub mod Order
pub mod Merge
use version_control_tools_fx.Base.{
  ℕ, suc, zero, ◌+◌, Bool, true, false, not, ◌&&◌, ◌||◌, List, [], ◌∷◌, Option, none, some, Text,
  text_eq, any, all, length, ltb, ◌==◌, if◌then◌else◌,
}
use version_control_tools_fx.Hooks.Guards.{not_a_push}
use version_control_tools_fx.Hooks.Roots.{member}

abbrev pub Line : Type 0
Line = Text × Text

abbrev pub line_eq : Line → Line → Bool
line_eq a b = text_eq a.0 b.0 && text_eq a.1 b.1

-- `a < b` on texts
unfoldable pub text_ltb : Text → Text → Bool
text_ltb [] [] = false
text_ltb [] (y ∷ b) = true
text_ltb (x ∷ a) [] = false
text_ltb (x ∷ a) (y ∷ b) = ltb x y || (x == y && text_ltb a b)

-- The loop over both manifests, with at most so many rounds. The files are a set.
unfoldable pub changed_within : ℕ → List Line → List Line → List Text
unfolding text_eq text_ltb
changed_within zero ls ms = []
changed_within (suc k) [] [] = []
changed_within (suc k) [] (m ∷ ms) = m.0 ∷ changed_within k [] ms
changed_within (suc k) (l ∷ ls) [] = l.0 ∷ changed_within k ls []
changed_within (suc k) (l ∷ ls) (m ∷ ms) = elim (line_eq l m) [
  | true ↦ changed_within k ls ms
  | false ↦ elim (text_eq l.0 m.0) [
    | true ↦ m.0 ∷ changed_within k ls ms
    | false ↦ elim (text_ltb l.0 m.0) [
      | true ↦ l.0 ∷ changed_within k ls (m ∷ ms)
      | false ↦ m.0 ∷ changed_within k (l ∷ ls) ms
    ]
  ]
]

-- `get_changed_files`: each round takes a line of one of the manifests.
unfoldable pub get_changed_files : List Line → List Line → List Text
unfolding changed_within
get_changed_files ls ms = changed_within (length ls + length ms) ls ms

-- What the hook reads of a changeset.
pub record Rev : Type 0 where
  pub parents : List (List Line)
  pub rebase_source : Bool
  pub manifest : List Line
  pub files : List Text

-- `a == b` on sets
unfoldable pub same_files : List Text → List Text → Bool
unfolding member
same_files a b = all (λ f. member f b) a && all (λ f. member f a) b

unfoldable pub is_broken : Rev → Bool
unfolding get_changed_files same_files
is_broken c = elim c.parents [
  | [] ↦ false
  | p ∷ [] ↦
      if not c.rebase_source
      then false
      else not (same_files (get_changed_files p c.manifest) c.files)
  | p ∷ q ∷ ps ↦ false
]

-- `hook`
unfoldable pub changelog_correctness : Text → List Rev → ℕ
unfolding is_broken
changelog_correctness source revs =
    if not_a_push source then 0 else if any is_broken revs then 1 else 0

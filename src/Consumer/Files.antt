-- ===== src/Consumer/Files.antt =====
-- The files of a host, as Python's `os` and `shutil` show them to consumer.py. Permissions, links
-- and full disks are not modelled.
use mathlib.Core.List.{reverse}
use version_control_tools_fx.Base.{
  ℕ, Bool, true, false, ◌||◌, List, [], ◌∷◌, map, any, ◌++◌, Option, none, some, Text, text_eq,
  starts_with, length, drop, ◌==◌, if◌then◌else◌,
}

-- A file has bytes and a time of modification, in whole seconds.
pub data Node : Type 0 where
  file : List ℕ → ℕ → Node
  directory : Node

abbrev pub Fs : Type 0
Fs = Text → Option Node

-- `os.path.exists`
abbrev pub exists : Fs → Text → Bool
exists fs p = elim (fs p) [ none ↦ false | some n ↦ true ]

-- `fs` with another node, or none, at one path
unfoldable pub put : Text → Option Node → Fs → Fs
put p n fs q = if text_eq p q then n else fs q

-- `os.path.join(a, b)` for `b` that does not begin with a slash
unfoldable pub join_path : Text → Text → Text
join_path a b = elim (reverse a) [ [] ↦ b | c ∷ cs ↦ if c == b'/' then a ++ b else a ++ (b'/' ∷ b) ]

-- The path itself, or one below it.
unfoldable pub at_or_below : Text → Text → Bool
at_or_below root p = text_eq p root || starts_with p (root ++ b'/' ∷ [])

-- `shutil.rmtree`
unfoldable pub remove_tree : Text → Fs → Fs
unfolding at_or_below
remove_tree root fs q = if at_or_below root q then none else fs q

-- `os.rename` of a directory to a path that is not there
unfoldable pub rename_tree : Text → Text → Fs → Fs
unfolding at_or_below
rename_tree src dst fs q =
    if at_or_below dst q
    then fs (src ++ drop (length dst) q)
    else if at_or_below src q
    then none
    else fs q

-- The directories above a path.
unfoldable pub above : Text → List Text
above [] = []
above (c ∷ cs) =
    let rest = map (λ (p : Text). c ∷ p) (above cs) in if c == b'/' then [] ∷ rest else rest

abbrev is_file : Option Node → Bool
is_file (some (file content mtime)) = true
is_file _ = false

-- A file stands where a directory is to be.
unfoldable pub blocked : Fs → Text → Bool
unfolding above
blocked fs d = any (λ p. is_file (fs p)) (above d)

-- What `os.makedirs` adds: the directory and those above it that are missing.
unfoldable pub make_dirs : Text → Fs → Fs
unfolding at_or_below
make_dirs d fs q = elim (fs q) [
  | some n ↦ some n
  | none ↦ if at_or_below q d then some directory else none
]

-- ===== src/Hooks/Roots.antt =====
-- check/single_root.py: `SingleRootCheck`, whose state is the set of new roots. The node IDs that
-- the configuration allows are the argument `allowed_roots`, once they are decoded.
pub mod Laws
use version_control_tools_fx.Base.{
  ℕ, Bool, true, false, not, ◌&&◌, ◌||◌, List, [], ◌∷◌, Text, codes, text_eq, ◌==◌, if◌then◌else◌,
}
use version_control_tools_fx.Hooks.Extension.{Check}

-- What the checks read of a changeset.
pub record Changeset : Type 0 where
  pub rev : ℕ
  pub node : Text
  pub p1_is_null : Bool
  pub files : List Text

-- `x in xs`
unfoldable pub member : Text → List Text → Bool
member x [] = false
member x (y ∷ ys) = text_eq x y || member x ys

-- `xs.add(x)`
unfoldable pub add : Text → List Text → List Text
unfolding member
add x xs = if member x xs then xs else x ∷ xs

-- `xs - ys`
unfoldable pub difference : List Text → List Text → List Text
unfolding member
difference [] ys = []
difference (x ∷ xs) ys = let rest = difference xs ys in if member x ys then rest else x ∷ rest

abbrev pub is_empty : List Text → Bool
is_empty [] = true
is_empty (x ∷ xs) = false

abbrev pub new_root : Changeset → Bool
new_root c = not (c.rev == 0) && c.p1_is_null

unfoldable pub single_root : Bool → List Text → Check (List Text) Changeset
unfolding add difference
single_root user_repo allowed_roots = record {
  name = codes "single_root";
  relevant = not user_repo;
  pre = λ s. [];
  check = λ c s. (true, if new_root c then add c.node s else s);
  post_check = λ s. (if is_empty s then true else is_empty (difference s allowed_roots), s);
}

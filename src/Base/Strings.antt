-- ===== src/Base/Strings.antt =====
-- Text as the list of its code points, with the operations of Python's `str` and `bytes`.
use Prim.Native.Nat.{ℕ}
use Prim.Native.Char.{code}
use Prim.Native.String.{String}
use mathlib.Core.Path.{◌≡◌, refl}
use mathlib.Core.Logic.{◌↔◌}
use mathlib.Core.Bool.{Bool, true, false, ◌&&◌, ◌||◌}
use mathlib.Core.List.{List, [], ◌∷◌, ◌++◌, reverse}
use native.Mathlib.Omega.{arith}
use version_control_tools_fx.Base.Tests.{◌==◌, ltb, leb, if◌then◌else◌}

abbrev pub Text : Type 0
Text = List ℕ

-- A literal's code points.
abbrev pub codes : String → Text
codes String.[] = []
codes (String.◌∷◌ c s) = code c ∷ codes s

unfoldable pub text_eq : Text → Text → Bool
text_eq [] [] = true
text_eq (x ∷ xs) (y ∷ ys) = x == y && text_eq xs ys
text_eq _ _ = false

pub text_eq_iff : (a b : Text) → (text_eq a b ≡ true) ↔ (a ≡ b)
unfolding text_eq
text_eq_iff (x ∷ a) (y ∷ b) = ground (arith, text_eq_iff a b)
text_eq_iff _ _ = ground arith

-- `text.startswith(prefix)`, the text first.
unfoldable pub starts_with : Text → Text → Bool
starts_with t [] = true
starts_with [] (y ∷ ys) = false
starts_with (x ∷ xs) (y ∷ ys) = x == y && starts_with xs ys

pub starts_with-append : (p t : Text) → starts_with (p ++ t) p ≡ true
unfolding starts_with
starts_with-append [] t = refl
starts_with-append (x ∷ p) t = ground (arith, starts_with-append p t)

-- What is left behind a prefix.
pub starts_with-split : (t p : Text) → starts_with t p ≡ true → (r : Text) × (t ≡ p ++ r)
unfolding starts_with
starts_with-split t [] h = (t, refl)
starts_with-split [] (y ∷ p) h = cc
starts_with-split (x ∷ t) (y ∷ p) h =
    let (r, e) = starts_with-split t p (ground arith) in (r, ground (arith, e))

-- `text.endswith(suffix)`.
unfoldable pub ends_with : Text → Text → Bool
unfolding starts_with
ends_with t s = starts_with (reverse t) (reverse s)

-- `os.path.dirname`, on the characters from the end: the slashes that separate the name go with it,
-- where there is more than slashes in front.
unfoldable pub behind_slashes : Text → Text
behind_slashes [] = []
behind_slashes (c ∷ cs) = if c == b'/' then behind_slashes cs else c ∷ cs

unfoldable pub drop_name : Text → Text
unfolding behind_slashes
drop_name [] = []
drop_name (c ∷ cs) =
    if c == b'/' then elim (behind_slashes cs) [ [] ↦ c ∷ cs | x ∷ xs ↦ x ∷ xs ] else drop_name cs

unfoldable pub dirname : Text → Text
unfolding drop_name
dirname p = reverse (drop_name (reverse p))

root_dirname : dirname (b'/' ∷ b'a' ∷ []) ≡ b'/' ∷ []
unfolding dirname
root_dirname = refl

-- `needle in text`.
unfoldable pub contains : Text → Text → Bool
unfolding starts_with
contains [] n = starts_with [] n
contains (x ∷ xs) n = starts_with (x ∷ xs) n || contains xs n

unfoldable pub onto_first : ℕ → List Text → List Text
onto_first x [] = (x ∷ []) ∷ []
onto_first x (p ∷ ps) = (x ∷ p) ∷ ps

-- `text.split(c)` for a separator of one character
unfoldable pub split_on : ℕ → Text → List Text
unfolding onto_first
split_on c [] = [] ∷ []
split_on c (x ∷ xs) = let rest = split_on c xs in if x == c then [] ∷ rest else onto_first x rest

-- `sep.join(parts)`
unfoldable pub join : Text → List Text → Text
join sep [] = []
join sep (p ∷ []) = p
join sep (p ∷ q ∷ ps) = p ++ (sep ++ join sep (q ∷ ps))

-- `a <= b` on texts
unfoldable pub text_leb : Text → Text → Bool
text_leb [] b = true
text_leb (x ∷ a) [] = false
text_leb (x ∷ a) (y ∷ b) = ltb x y || (x == y && text_leb a b)

unfoldable pub insert_text : Text → List Text → List Text
unfolding text_leb
insert_text t [] = t ∷ []
insert_text t (u ∷ us) = if text_leb t u then t ∷ u ∷ us else u ∷ insert_text t us

-- `sorted(texts)`
unfoldable pub sorted_texts : List Text → List Text
unfolding insert_text
sorted_texts [] = []
sorted_texts (t ∷ ts) = insert_text t (sorted_texts ts)

-- The ASCII characters that `strip` takes away.
abbrev pub is_space : ℕ → Bool
is_space c = c == 32 || (leb 9 c && leb c 13)

unfoldable pub strip_left : Text → Text
strip_left [] = []
strip_left (c ∷ cs) = if is_space c then strip_left cs else c ∷ cs

-- `text.strip()`
unfoldable pub strip : Text → Text
unfolding strip_left
strip t = reverse (strip_left (reverse (strip_left t)))

-- A text with something behind it is another text.
pub text_eq-longer : (t : Text) (c : ℕ) (cs : Text) → text_eq t (t ++ c ∷ cs) ≡ false
unfolding text_eq
text_eq-longer [] c cs = refl
text_eq-longer (x ∷ t) c cs = ground (arith, text_eq-longer t c cs)

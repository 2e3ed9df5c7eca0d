-- ===== src/Base/Words.antt =====
-- `bytes.splitlines`, `bytes.split(c, n)` and `bytes.split()`, and that they undo `join`.
use Prim.Native.Nat.{ℕ, zero, suc}
use mathlib.Core.Path.{◌≡◌, refl, ap, ◌∙◌}
use mathlib.Core.Bool.{Bool, true, false, ◌&&◌, ◌||◌}
use mathlib.Core.List.{List, [], ◌∷◌, ◌++◌}
use native.Mathlib.Omega.{arith}
use version_control_tools_fx.Base.Lists.{any, All}
use version_control_tools_fx.Base.Strings.{Text, codes, is_space, onto_first, join}
use version_control_tools_fx.Base.Tests.{◌==◌, if◌then◌else◌}

-- `\n`, `\r`
abbrev pub is_break : ℕ → Bool
is_break c = c == 10 || c == 13

-- The lines of a text; `cr` says that a `\r` stands before it, which takes a `\n` along. There is
-- no last line without a character.
unfoldable pub lines_from : Bool → Text → List Text
unfolding onto_first
lines_from cr [] = []
lines_from cr (c ∷ cs) =
    let rest = lines_from (c == 13) cs in
    if cr && c == 10 then rest else if is_break c then [] ∷ rest else onto_first c rest

-- `text.splitlines()`
unfoldable pub splitlines : Text → List Text
unfolding lines_from
splitlines t = lines_from false t

-- `text.split(c, k)`
unfoldable pub split_at_most : ℕ → ℕ → Text → List Text
unfolding onto_first
split_at_most c zero t = t ∷ []
split_at_most c (suc k) [] = [] ∷ []
split_at_most c (suc k) (x ∷ xs) =
    let rest = split_at_most c (if x == c then k else suc k) xs in
    if x == c then [] ∷ rest else onto_first x rest

unfoldable pub split_spaces : Text → List Text
unfolding onto_first
split_spaces [] = [] ∷ []
split_spaces (c ∷ cs) =
    let rest = split_spaces cs in if is_space c then [] ∷ rest else onto_first c rest

unfoldable pub not_empty : List Text → List Text
not_empty [] = []
not_empty ([] ∷ ts) = not_empty ts
not_empty ((c ∷ cs) ∷ ts) = (c ∷ cs) ∷ not_empty ts

-- `text.split()`
unfoldable pub words : Text → List Text
unfolding split_spaces not_empty
words t = not_empty (split_spaces t)

lines_crlf : splitlines (codes "a\r\nb\n\nc\n") ≡ codes "a" ∷ codes "b" ∷ [] ∷ codes "c" ∷ []
unfolding splitlines
lines_crlf = refl

split_three : split_at_most 32 2 (codes "a b c d") ≡ codes "a" ∷ codes "b" ∷ codes "c d" ∷ []
unfolding split_at_most
split_three = refl

words_spaces : words (codes " a  b ") ≡ codes "a" ∷ codes "b" ∷ []
unfolding words
words_spaces = refl

pub lines-break :
    (l t : Text) → any is_break l ≡ false → lines_from false (l ++ 10 ∷ t) ≡ l ∷ lines_from false t
unfolding lines_from onto_first
lines-break [] t h = refl
lines-break (c ∷ l) t h =
    let cr : (c == 13) ≡ false = ground (arith, h) in
    let other : (c == 10) ≡ false = ground (arith, h) in
    rw (cr, other, lines-break l t (ground (arith, h))) refl

lines-last :
    (c : ℕ) (l : Text) → any is_break (c ∷ l) ≡ false → lines_from false (c ∷ l) ≡ (c ∷ l) ∷ []
unfolding lines_from onto_first
lines-last c [] h = ground (arith, h)
lines-last c (d ∷ l) h =
    let cr : (c == 13) ≡ false = ground (arith, h) in
    let other : (c == 10) ≡ false = ground (arith, h) in
    rw (cr, other, lines-last d l (ground (arith, h))) refl

-- A line that has characters and no break.
abbrev pub IsLine : Text → Type 0
IsLine [] = ⊥
IsLine (c ∷ l) = any is_break (c ∷ l) ≡ false

-- The lines of joined lines are these.
pub splitlines-join : (ls : List Text) → All IsLine ls → splitlines (join (10 ∷ []) ls) ≡ ls
unfolding splitlines lines_from join
splitlines-join [] h = refl
splitlines-join ([] ∷ ls) h = absurd h.0
splitlines-join ((c ∷ l) ∷ []) h = lines-last c l h.0
splitlines-join ((c ∷ l) ∷ m ∷ ls) h =
    lines-break (c ∷ l) (join (10 ∷ []) (m ∷ ls)) h.0
    ∙ ap (λ (ts : List Text). (c ∷ l) ∷ ts) (splitlines-join (m ∷ ls) h.1)

-- A word before the separator.
pub split-word :
    (c k : ℕ) (w t : Text)
    → any (λ x. x == c) w ≡ false
    → split_at_most c (suc k) (w ++ c ∷ t) ≡ w ∷ split_at_most c k t
unfolding split_at_most onto_first
split-word c k [] t h = let same : (c == c) ≡ true = ground arith in rw same refl
split-word c k (x ∷ w) t h =
    let other : (x == c) ≡ false = ground (arith, h) in
    rw (other, split-word c k w t (ground (arith, h))) refl

spaces-word :
    (w t : Text) → any is_space w ≡ false → split_spaces (w ++ 32 ∷ t) ≡ w ∷ split_spaces t
unfolding split_spaces onto_first
spaces-word [] t h = refl
spaces-word (c ∷ w) t h =
    let other : is_space c ≡ false = ground (arith, h) in
    rw (other, spaces-word w t (ground (arith, h))) refl

spaces-last : (w : Text) → any is_space w ≡ false → split_spaces w ≡ w ∷ []
unfolding split_spaces onto_first
spaces-last [] h = refl
spaces-last (c ∷ w) h =
    let other : is_space c ≡ false = ground (arith, h) in
    rw (other, spaces-last w (ground (arith, h))) refl

-- A word that has characters and no white space.
abbrev pub IsWord : Text → Type 0
IsWord [] = ⊥
IsWord (c ∷ w) = any is_space (c ∷ w) ≡ false

spaces-join :
    (w : Text) (ws : List Text)
    → All IsWord (w ∷ ws)
    → split_spaces (join (32 ∷ []) (w ∷ ws)) ≡ w ∷ ws
unfolding split_spaces join
spaces-join [] ws h = absurd h.0
spaces-join (c ∷ w) [] h = spaces-last (c ∷ w) h.0
spaces-join (c ∷ w) (v ∷ ws) h =
    spaces-word (c ∷ w) (join (32 ∷ []) (v ∷ ws)) h.0
    ∙ ap (λ (ts : List Text). (c ∷ w) ∷ ts) (spaces-join v ws h.1)

not_empty-words : (ws : List Text) → All IsWord ws → not_empty ws ≡ ws
unfolding not_empty
not_empty-words [] h = refl
not_empty-words ([] ∷ ws) h = absurd h.0
not_empty-words ((c ∷ w) ∷ ws) h = ap (λ (ts : List Text). (c ∷ w) ∷ ts) (not_empty-words ws h.1)

-- The words of joined words are these.
pub words-join : (ws : List Text) → All IsWord ws → words (join (32 ∷ []) ws) ≡ ws
unfolding words split_spaces not_empty join
words-join [] h = refl
words-join (w ∷ ws) h = rw (spaces-join w ws h) (not_empty-words (w ∷ ws) h)

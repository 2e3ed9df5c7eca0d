-- ===== src/Base/Decimal.antt =====
-- Python's `b"%d" % n` and `int(text)`, for numbers that are not negative.
use Prim.Native.Nat.{ℕ, zero, suc, ◌+◌, ◌-◌, ◌*◌, ◌/◌, ◌%◌, ◌<◌}
use mathlib.Core.Path.{◌≡◌, refl, sym, ◌∙◌, ap}
use mathlib.Core.Logic.{inl, inr}
use mathlib.Core.Bool.{Bool, true, false, not, ◌&&◌, ◌||◌}
use mathlib.Core.List.{
  [], ◌∷◌, ◌++◌, reverse, append_assoc, append-nil, reverse-cons, reverse-reverse,
}
use native.Mathlib.Omega.{arith}
use version_control_tools_fx.Base.Lists.{all}
use version_control_tools_fx.Base.Result.{Result, ok, err, value_error}
use version_control_tools_fx.Base.Strings.{Text, codes, strip, strip_left}
use version_control_tools_fx.Base.Tests.{◌==◌, ltb, leb, if◌then◌else◌, Bool-cases}

-- The digits of `n`, of which there are at most as many as the first argument.
unfoldable pub decimal_within : ℕ → ℕ → Text
decimal_within zero n = []
decimal_within (suc k) n =
    let before = decimal_within k (n / 10) in
    (if ltb n 10 then [] else before) ++ (48 + n % 10) ∷ []

-- `b"%d" % n`: `suc n` digits are enough.
unfoldable pub decimal : ℕ → Text
unfolding decimal_within
decimal n = decimal_within (suc n) n

abbrev pub is_digit : ℕ → Bool
is_digit c = leb 48 c && leb c 57

-- The digits behind `n`; a digit is needed first and behind an underscore.
unfoldable pub read_digits : Bool → ℕ → Text → Result ℕ
read_digits true n [] = err value_error
read_digits false n [] = ok n
read_digits needed n (c ∷ cs) =
    let digit = is_digit c in
    let rest = read_digits (not digit) (if digit then n * 10 + (c - 48) else n) cs in
    if digit || (not needed && c == 95) then rest else err value_error

abbrev pub after_plus : Text → Text
after_plus [] = []
after_plus (c ∷ cs) = if c == 43 then cs else c ∷ cs

-- `int(text)`: white space around the number, a plus before it and single underscores between its
-- digits are let pass. A text with a minus is not read here.
unfoldable pub int : Text → Result ℕ
unfolding read_digits strip
int t = read_digits true 0 (after_plus (strip t))

int_underscores : int (codes " +1_000 ") ≡ ok 1000
unfolding int
int_underscores = refl

int_ends : int (codes "1_") ≡ err value_error
unfolding int
int_ends = refl

decimal_1200 : decimal 1200 ≡ codes "1200"
unfolding decimal
decimal_1200 = refl

read_digit :
    (needed : Bool) (m d : ℕ) (rest : Text)
    → d < 10
    → read_digits needed m ((48 + d) ∷ rest) ≡ read_digits false (m * 10 + d) rest
unfolding read_digits
read_digit needed m d rest h =
    let digit : is_digit (48 + d) ≡ true = ground arith in
    let is : (48 + d) - 48 ≡ d = omega arith in rw (digit, is) refl

read_digits-decimal :
    (k : ℕ) (needed : Bool) (n : ℕ) (rest : Text)
    → n < k
    → read_digits needed 0 (decimal_within k n ++ rest) ≡ read_digits false n rest
unfolding decimal_within
read_digits-decimal zero needed n rest h = absurd (omega arith)
read_digits-decimal (suc k) needed n rest h = elim (Bool-cases (ltb n 10)) [
  | inl small ↦
      rw (small, read_digit needed 0 (n % 10) rest (omega arith))
        (ap (λ m. read_digits false m rest) (ground (arith, small)))
  | inr large ↦
      rw
        (
          large,
          append_assoc (decimal_within k (n / 10)) ((48 + n % 10) ∷ []) rest,
          read_digits-decimal k needed (n / 10) ((48 + n % 10) ∷ rest) (ground (arith, large)),
          read_digit false (n / 10) (n % 10) rest (omega arith),
        )
        (ap (λ m. read_digits false m rest) (omega arith))
]

pub all-append : (p : ℕ → Bool) (s t : Text) → all p (s ++ t) ≡ (all p s && all p t)
all-append p [] t = ground arith
all-append p (x ∷ s) t = ground (arith, all-append p s t)

decimal_within-digits : (k n : ℕ) → all is_digit (decimal_within k n) ≡ true
unfolding decimal_within
decimal_within-digits zero n = refl
decimal_within-digits (suc k) n =
    let digit : is_digit (48 + n % 10) ≡ true = ground arith in
    elim (Bool-cases (ltb n 10)) [
      | inl small ↦ rw (small, digit) refl
      | inr large ↦
          rw
            (
              large,
              all-append is_digit (decimal_within k (n / 10)) ((48 + n % 10) ∷ []),
              decimal_within-digits k (n / 10),
              digit,
            )
            refl
    ]

-- A number is printed in digits.
pub decimal-digits : (n : ℕ) → all is_digit (decimal n) ≡ true
unfolding decimal
decimal-digits n = decimal_within-digits (suc n) n

after_plus-digits : (t : Text) → all is_digit t ≡ true → after_plus t ≡ t
after_plus-digits [] h = refl
after_plus-digits (c ∷ t) h = ground (arith, h)

strip_left-digits : (t : Text) → all is_digit t ≡ true → strip_left t ≡ t
unfolding strip_left
strip_left-digits [] h = refl
strip_left-digits (c ∷ t) h = ground (arith, h)

reverse-digits : (t : Text) → all is_digit t ≡ true → all is_digit (reverse t) ≡ true
reverse-digits [] h = refl
reverse-digits (c ∷ t) h =
    rw (reverse-cons c t, all-append is_digit (reverse t) (c ∷ []))
      (ground (arith, h, reverse-digits t))

pub strip-digits : (t : Text) → all is_digit t ≡ true → strip t ≡ t
unfolding strip
strip-digits t h =
    rw
      (strip_left-digits t h, strip_left-digits (reverse t) (reverse-digits t h), reverse-reverse t)
      refl

read-decimal : (n : ℕ) → read_digits true 0 (decimal n) ≡ ok n
unfolding decimal read_digits
read-decimal n =
    ap (read_digits true 0) (sym (append-nil (decimal n)))
    ∙ read_digits-decimal (suc n) true n [] (omega arith)

-- What is printed is read back.
pub int-decimal : (n : ℕ) → int (decimal n) ≡ ok n
unfolding int
int-decimal n =
    rw
      (
        strip-digits (decimal n) (decimal-digits n),
        after_plus-digits (decimal n) (decimal-digits n),
      )
      (read-decimal n)

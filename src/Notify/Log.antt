-- ===== src/Notify/Log.antt =====
-- The lines that `hg log` prints.
use mathlib.Core.List.{reverse, reverse-append, reverse-cons, reverse-reverse}
use mathlib.Core.Path.{subst}
use version_control_tools_fx.Base.{
  ℕ, map, ◌≡◌, refl, sym, ap, ◌∙◌, Bool, true, false, ◌||◌, List, [], ◌∷◌, ◌++◌, append_assoc,
  Option, none, some, Text, strip, strip_left, is_space, split_on, join, any, all, any-append, All,
  ◌==◌, arith,
}
use version_control_tools_fx.Base.Result.{ok, ◌>>=◌}
use version_control_tools_fx.Base.Decimal.{decimal, is_digit, decimal-digits, int, int-decimal}
use version_control_tools_fx.Base.Words.{
  splitlines, lines_from, lines-break, words, words-join, is_break, IsWord,
}
use version_control_tools_fx.Notify.Info.{pushed_at, first_number, read_fields}

-- What `hg log` prints of a changeset: its node, and the push's id, user, time and offset, where it
-- has one.
pub record Pushed : Type 0 where
  pub pushid : ℕ
  pub user : Text
  pub time : ℕ
  pub offset : Text

pub record Logged : Type 0 where
  pub node : Text
  pub pushed : Option Pushed

-- `{pushdate|hgdate}`
abbrev pub hgdate : Pushed → Text
hgdate p = join (32 ∷ []) (decimal p.time ∷ p.offset ∷ [])

abbrev pub push_fields : Pushed → Text
push_fields p = decimal p.pushid ++ 0 ∷ (p.user ++ 0 ∷ hgdate p)

-- A line of the template.
abbrev pub line_of : Text → Option Pushed → Text
line_of node none = node ++ 0 ∷ 0 ∷ 0 ∷ []
line_of node (some p) = node ++ 0 ∷ push_fields p

abbrev pub log_line : Logged → Text
log_line l = line_of l.node l.pushed

unfoldable pub printed : List Logged → Text
printed [] = []
printed (l ∷ ls) = log_line l ++ 10 ∷ printed ls

-- Without line breaks and characters 0, as a user has none and a node is in hex.
abbrev pub IsClean : Text → Type 0
IsClean t = any (λ c. c == 0 || is_break c) t ≡ false

abbrev pub IsPlain : Option Pushed → Type 0
IsPlain none = Unit
IsPlain (some p) = IsClean p.user × IsWord p.offset × IsClean p.offset

abbrev pub IsPlainLine : Logged → Type 0
IsPlainLine l = IsWord l.node × IsClean l.node × IsPlain l.pushed

pub split_on-word :
    (w t : Text) → any (λ c. c == 0) w ≡ false → split_on 0 (w ++ 0 ∷ t) ≡ w ∷ split_on 0 t
unfolding split_on
split_on-word [] t h = refl
split_on-word (c ∷ w) t h =
    let other : c == 0 ≡ false = ground (arith, h) in
    rw (other, split_on-word w t (ground (arith, h))) refl

split_on-last : (w : Text) → any (λ c. c == 0) w ≡ false → split_on 0 w ≡ w ∷ []
unfolding split_on
split_on-last [] h = refl
split_on-last (c ∷ w) h =
    let other : c == 0 ≡ false = ground (arith, h) in
    rw (other, split_on-last w (ground (arith, h))) refl

pub no_zero : (t : Text) → IsClean t → any (λ c. c == 0) t ≡ false
no_zero [] h = refl
no_zero (c ∷ t) h = ground (arith, h, no_zero t)

no_break : (t : Text) → IsClean t → any is_break t ≡ false
no_break [] h = refl
no_break (c ∷ t) h = ground (arith, h, no_break t)

digits-IsClean : (t : Text) → all is_digit t ≡ true → IsClean t
digits-IsClean [] h = refl
digits-IsClean (c ∷ t) h = ground (arith, h, digits-IsClean t)

strip_left-word : (w t : Text) → IsWord w → strip_left (w ++ t) ≡ w ++ t
unfolding strip_left
strip_left-word [] t h = absurd h
strip_left-word (c ∷ w) t h = ground (arith, h)

any-reverse : (p : ℕ → Bool) (t : Text) → any p (reverse t) ≡ any p t
any-reverse p [] = refl
any-reverse p (c ∷ t) =
    rw (reverse-cons c t, any-append p (reverse t) (c ∷ [])) (ground (arith, any-reverse p t))

IsWord-snoc : (t : Text) (c : ℕ) → any is_space (t ++ c ∷ []) ≡ false → IsWord (t ++ c ∷ [])
IsWord-snoc [] c h = h
IsWord-snoc (d ∷ t) c h = h

reverse-IsWord : (w : Text) → IsWord w → IsWord (reverse w)
reverse-IsWord [] h = absurd h
reverse-IsWord (c ∷ w) h = subst IsWord (sym (reverse-cons c w)) (
    IsWord-snoc (reverse w) c
      (ap (any is_space) (sym (reverse-cons c w)) ∙ any-reverse is_space (c ∷ w) ∙ h))

-- A text that begins and ends with a word.
strip-words : (t w a v b : Text) → t ≡ w ++ a → t ≡ b ++ v → IsWord w → IsWord v → strip t ≡ t
unfolding strip
strip-words t w a v b front back h k =
    let left : strip_left t ≡ t = ap strip_left front ∙ strip_left-word w a h ∙ sym front in
    let turned : reverse t ≡ reverse v ++ reverse b = ap reverse back ∙ reverse-append b v in
    let right : strip_left (reverse t) ≡ reverse t =
      ap strip_left turned
      ∙ strip_left-word (reverse v) (reverse b) (reverse-IsWord v k)
      ∙ sym turned in
    rw (left, right) (reverse-reverse t)

before_offset : Text → Pushed → Text
before_offset node p =
    node ++ 0 ∷ (decimal p.pushid ++ 0 ∷ (p.user ++ 0 ∷ (decimal p.time ++ 32 ∷ [])))

line_of-offset :
    (node : Text) (p : Pushed) → line_of node (some p) ≡ before_offset node p ++ p.offset
unfolding before_offset join
line_of-offset node p =
    let time : Text = decimal p.time ++ 32 ∷ [] in
    let user : Text = p.user ++ 0 ∷ time in
    let id : Text = decimal p.pushid ++ 0 ∷ user in
    sym (
      append_assoc node (0 ∷ id) p.offset
      ∙ ap (λ t. node ++ 0 ∷ t)
          (append_assoc (decimal p.pushid) (0 ∷ user) p.offset
            ∙ ap (λ t. decimal p.pushid ++ 0 ∷ t)
                (append_assoc p.user (0 ∷ time) p.offset
                  ∙ ap (λ t. p.user ++ 0 ∷ t) (append_assoc (decimal p.time) (32 ∷ []) p.offset))))

pub line_of-strip :
    (node : Text) (o : Option Pushed)
    → IsWord node
    → IsPlain o
    → strip (line_of node o) ≡ line_of node o
line_of-strip node none w h =
    strip-words (line_of node none) node (0 ∷ 0 ∷ 0 ∷ []) (0 ∷ 0 ∷ 0 ∷ []) node refl refl w refl
line_of-strip node (some p) w h =
    strip-words (line_of node (some p)) node (0 ∷ push_fields p) p.offset (before_offset node p)
      refl (line_of-offset node p) w h.1

hgdate-IsClean : (p : Pushed) → IsClean p.offset → IsClean (hgdate p)
unfolding join
hgdate-IsClean p h =
    rw
      (
        any-append (λ c. c == 0 || is_break c) (decimal p.time) (32 ∷ p.offset),
        digits-IsClean (decimal p.time) (decimal-digits p.time),
      )
      h

pub push_fields-split :
    (p : Pushed)
    → IsPlain (some p)
    → split_on 0 (push_fields p) ≡ decimal p.pushid ∷ p.user ∷ hgdate p ∷ []
push_fields-split p (u, w, o) =
    split_on-word (decimal p.pushid) (p.user ++ 0 ∷ hgdate p)
      (no_zero (decimal p.pushid) (digits-IsClean (decimal p.pushid) (decimal-digits p.pushid)))
    ∙ ap (λ ts. decimal p.pushid ∷ ts)
        (split_on-word p.user (hgdate p) (no_zero p.user u)
          ∙ ap (λ ts. p.user ∷ ts)
              (split_on-last (hgdate p) (no_zero (hgdate p) (hgdate-IsClean p o))))

pub split_on-zeros : split_on 0 (0 ∷ 0 ∷ []) ≡ [] ∷ [] ∷ [] ∷ []
unfolding split_on
split_on-zeros = refl

int_nothing : {m : ℕ} → int [] ≡ ok m → ⊥
unfolding int strip
int_nothing h = cc h

-- The first field that is read is not empty.
pub read_fields-int :
    (url node id user when : Text) {n : ℕ}
    → int id ≡ ok n
    → read_fields url (node ∷ id ∷ user ∷ when ∷ [])
      ≡ (first_number (words when) >>= λ time. ok (some (pushed_at url n user time)))
read_fields-int url node [] user when h = absurd (int_nothing h)
read_fields-int url node (c ∷ cs) user when h = rw h refl

digits-IsWord : (t : Text) {n : ℕ} → all is_digit t ≡ true → int t ≡ ok n → IsWord t
digits-IsWord [] h i = absurd (int_nothing i)
digits-IsWord (c ∷ t) h i = no_space (c ∷ t) h
  where
    no_space : (u : Text) → all is_digit u ≡ true → any is_space u ≡ false
    no_space [] g = refl
    no_space (d ∷ u) g = ground (arith, g, no_space u)

pub first_number-hgdate :
    (p : Pushed) → IsWord p.offset → first_number (words (hgdate p)) ≡ ok p.time
unfolding first_number
first_number-hgdate p w =
    rw
      (words-join (decimal p.time ∷ p.offset ∷ [])
        (digits-IsWord (decimal p.time) (decimal-digits p.time) (int-decimal p.time), (w, tt)))
      (int-decimal p.time)

line_of-no_break :
    (node : Text) (o : Option Pushed)
    → IsClean node
    → IsPlain o
    → any is_break (line_of node o) ≡ false
line_of-no_break node none c h =
    rw (any-append is_break node (0 ∷ 0 ∷ 0 ∷ []), no_break node c) refl
line_of-no_break node (some p) c (u, w, o) =
    rw
      (
        any-append is_break node (0 ∷ push_fields p),
        no_break node c,
        any-append is_break (decimal p.pushid) (0 ∷ (p.user ++ 0 ∷ hgdate p)),
        no_break (decimal p.pushid) (digits-IsClean (decimal p.pushid) (decimal-digits p.pushid)),
        any-append is_break p.user (0 ∷ hgdate p),
        no_break p.user u,
        no_break (hgdate p) (hgdate-IsClean p o),
      )
      refl

pub splitlines-printed :
    (ls : List Logged) → All IsPlainLine ls → splitlines (printed ls) ≡ map log_line ls
unfolding splitlines lines_from printed
splitlines-printed [] h = refl
splitlines-printed (l ∷ ls) (h, hs) =
    lines-break (log_line l) (printed ls) (line_of-no_break l.node l.pushed h.1 h.2)
    ∙ ap (λ ts. log_line l ∷ ts) (splitlines-printed ls hs)

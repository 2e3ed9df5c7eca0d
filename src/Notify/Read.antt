-- ===== src/Notify/Read.antt =====
-- The pushes that `hg log` prints are read back.
use version_control_tools_fx.Base.{
  ℕ, map, ◌≡◌, refl, sym, ap, ◌∙◌, Bool, true, false, List, [], ◌∷◌, ◌++◌, Option, none, some, Text,
  lookup, All, ◌==◌, Bool-cases, Option-cases, inl, inr, arith, if◌then◌else◌,
}
use version_control_tools_fx.Base.Result.{ok, ◌>>=◌}
use version_control_tools_fx.Base.Decimal.{decimal, int-decimal}
use version_control_tools_fx.Base.Words.{IsWord}
use version_control_tools_fx.Notify.Info.{
  PushedAt, pushed_at, read_fields, read_stripped, set_default, read_pushes, get_pushlog_info,
}
use version_control_tools_fx.Notify.Log.{
  Pushed, Logged, hgdate, push_fields, line_of, log_line, printed, IsClean, IsPlain, IsPlainLine,
  line_of-strip, split_on-word, split_on-zeros, no_zero, push_fields-split, read_fields-int,
  first_number-hgdate, splitlines-printed,
}

-- What is read of a line.
abbrev as_pushed : Text → Option Pushed → Option PushedAt
as_pushed url none = none
as_pushed url (some p) = some (pushed_at url p.pushid p.user p.time)

read-line_of :
    (url node : Text) (o : Option Pushed)
    → IsWord node
    → IsClean node
    → IsPlain o
    → read_stripped url (line_of node o) ≡ ok (as_pushed url o)
read-line_of url [] o w c h = absurd w
read-line_of url (x ∷ node) none w c h = ap (read_fields url) (
    split_on-word (x ∷ node) (0 ∷ 0 ∷ []) (no_zero (x ∷ node) c)
    ∙ ap (λ ts. (x ∷ node) ∷ ts) split_on-zeros)
read-line_of url (x ∷ node) (some p) w c h =
    ap (read_fields url) (
      split_on-word (x ∷ node) (push_fields p) (no_zero (x ∷ node) c)
      ∙ ap (λ ts. (x ∷ node) ∷ ts) (push_fields-split p h))
    ∙ read_fields-int url (x ∷ node) (decimal p.pushid) p.user (hgdate p) (int-decimal p.pushid)
    ∙ ap (λ r. r >>= λ time. ok (some (pushed_at url p.pushid p.user time)))
        (first_number-hgdate p h.1)

abbrev or_else : Option PushedAt → Option PushedAt → Option PushedAt
or_else none b = b
or_else (some a) b = some a

abbrev first_of : Option PushedAt → ℕ → Option PushedAt → Option PushedAt
first_of none k rest = rest
first_of (some p) k rest = if p.pushid == k then some p else rest

-- The first line of a push.
abbrev pub first_push : Text → ℕ → List Logged → Option PushedAt
first_push url k [] = none
first_push url k (l ∷ ls) = first_of (as_pushed url l.pushed) k (first_push url k ls)

lookup-snoc :
    (k j : ℕ) (v : PushedAt) (m : List (ℕ × PushedAt))
    → lookup k (m ++ (j, v) ∷ []) ≡ or_else (lookup k m) (if j == k then some v else none)
unfolding lookup
lookup-snoc k j v [] = refl
lookup-snoc k j v ((i, w) ∷ m) = elim (Bool-cases (i == k)) [
  | inl same ↦ rw same refl
  | inr other ↦ rw other (lookup-snoc k j v m)
]

or_else-none : (a : Option PushedAt) → or_else a none ≡ a
or_else-none none = refl
or_else-none (some v) = refl

or_else-if :
    (a b : Option PushedAt) (is : Bool) (v : PushedAt)
    → or_else (or_else a (if is then some v else none)) b ≡ or_else a (if is then some v else b)
or_else-if none b true v = refl
or_else-if none b false v = refl
or_else-if (some w) b is v = refl

lookup-set_default :
    (k : ℕ) (o : Option PushedAt) (rest : Option PushedAt) (m : List (ℕ × PushedAt))
    → or_else (lookup k (set_default o m)) rest ≡ or_else (lookup k m) (first_of o k rest)
lookup-set_default k none rest m = refl
lookup-set_default k (some p) rest m = elim (Option-cases (lookup p.pushid m)) [
  | inl missing ↦
      rw (set_default, missing, lookup-snoc k p.pushid p m)
        (or_else-if (lookup k m) rest (p.pushid == k) p)
  | inr (q, there) ↦ elim (Bool-cases (p.pushid == k)) [
    | inr other ↦ rw (set_default, there, other) refl
    | inl same ↦
        let is : p.pushid ≡ k = ground (arith, same) in
        let found : lookup k m ≡ some q = ap (λ j. lookup j m) (sym is) ∙ there in
        rw (set_default, there, same, found) refl
  ]
]

read_pushes-first :
    (url : Text) (ls : List Logged) (m : List (ℕ × PushedAt))
    → All IsPlainLine ls
    → (m' : List (ℕ × PushedAt)) × (read_pushes url (map log_line ls) m ≡ ok m')
      × ((k : ℕ) → lookup k m' ≡ or_else (lookup k m) (first_push url k ls))
unfolding read_pushes
read_pushes-first url [] m h = (m, refl, λ k. sym (or_else-none (lookup k m)))
read_pushes-first url (l ∷ ls) m (h, hs) =
    let (m', ends, says) = read_pushes-first url ls (set_default (as_pushed url l.pushed) m) hs in
    (
      m',
      rw (line_of-strip l.node l.pushed h.0 h.2, read-line_of url l.node l.pushed h.0 h.1 h.2) ends,
      λ k. says k ∙ lookup-set_default k (as_pushed url l.pushed) (first_push url k ls) m,
    )

-- Of a log whose nodes are words, whose users and offsets have no line break and no character 0, the
-- pushes are read back: each push with the user and the time of its first line, and a line without a push
-- is passed over.
pub get_pushlog_info-first :
    (url : Text) (ls : List Logged)
    → All IsPlainLine ls
    → (m : List (ℕ × PushedAt)) × (get_pushlog_info url (printed ls) ≡ ok m)
      × ((k : ℕ) → lookup k m ≡ first_push url k ls)
unfolding get_pushlog_info lookup
get_pushlog_info-first url ls h =
    let (m, ends, says) = read_pushes-first url ls [] h in
    (m, ap (λ ts. read_pushes url ts []) (splitlines-printed ls h) ∙ ends, says)

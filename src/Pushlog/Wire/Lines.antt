-- ===== src/Pushlog/Wire/Lines.antt =====
-- The lines that the server writes are the pushes that the client reads.
use version_control_tools_fx.Base.{
  ℕ, ◌≡◌, refl, ap, Bool, true, false, List, [], ◌∷◌, ◌++◌, map, Option, none, some, Text, codes,
  join, is_space, any, any-append, all, All, ◌==◌, arith, Bool-cases, inl, inr, if◌then◌else◌,
}
use version_control_tools_fx.Base.Result.{Result, ok, ◌>>=◌, Result-cases}
use version_control_tools_fx.Base.Decimal.{decimal, is_digit, decimal-digits, int-decimal}
use version_control_tools_fx.Base.Words.{
  splitlines, split_at_most, split-word, words-join, is_break, IsWord, IsLine, splitlines-join,
}
use version_control_tools_fx.Pushlog.Record.{Push}
use version_control_tools_fx.Pushlog.Wire.{
  push_line, Client, bins, all_known, numbered, read_line, read_lines,
}

-- A push whose user has no white space and whose nodes are words.
abbrev pub IsPlain : Push → Type 0
IsPlain p = (any is_space p.user ≡ false) × All IsWord p.nodes

-- The pushes up to the first with an unknown changeset, with their nodes in binary.
unfoldable pub known_pushes : Client → List Push → Result (List Push)
unfolding bins all_known
known_pushes c [] = ok []
known_pushes c (p ∷ ps) = bins c.bin p.nodes >>= λ ns.
    if all_known c.resolve ns
    then (known_pushes c ps >>= λ qs. ok (record p { nodes = ns } ∷ qs))
    else ok []

digits-other :
    (p : ℕ → Bool) (t : Text)
    → ((c : ℕ) → is_digit c ≡ true → p c ≡ false)
    → all is_digit t ≡ true
    → any p t ≡ false
digits-other p [] f h = refl
digits-other p (c ∷ t) f h =
    let other : p c ≡ false = f c (ground (arith, h)) in
    rw other (digits-other p t f (ground (arith, h)))

not_space :
    (p : ℕ → Bool) (t : Text)
    → ((c : ℕ) → is_space c ≡ false → p c ≡ false)
    → any is_space t ≡ false
    → any p t ≡ false
not_space p [] f h = refl
not_space p (c ∷ t) f h =
    let other : p c ≡ false = f c (ground (arith, h)) in
    rw other (not_space p t f (ground (arith, h)))

split-push_line :
    (p : Push)
    → IsPlain p
    → split_at_most 32 3 (push_line p)
      ≡ decimal p.pushid ∷ p.user ∷ decimal p.when ∷ join (32 ∷ []) p.nodes ∷ []
unfolding push_line split_at_most
split-push_line p h =
    rw
      (
        split-word 32 2 (decimal p.pushid) _ (
            digits-other (λ x. x == 32) (decimal p.pushid) (λ c d. ground (arith, d))
              (decimal-digits p.pushid)),
        split-word 32 1 p.user _ (not_space (λ x. x == 32) p.user (λ c d. ground (arith, d)) h.0),
        split-word 32 0 (decimal p.when) _ (
            digits-other (λ x. x == 32) (decimal p.when) (λ c d. ground (arith, d))
              (decimal-digits p.when)),
      )
      refl

abbrev with_known : Client → Push → List Text → Result (Option Push)
with_known c p ns = if all_known c.resolve ns then ok (some (record p { nodes = ns })) else ok none

read_known :
    (c : Client) (p : Push) (b : Bool) (ns : List Text)
    → (if b
        then (numbered (decimal p.pushid) p.user (decimal p.when) ns >>= λ q. ok (some q))
        else ok none)
      ≡ (if b then ok (some (record p { nodes = ns })) else ok none)
read_known c p b ns = rw (int-decimal p.pushid, int-decimal p.when) refl

-- The client reads the push of a line.
read_line-push_line :
    (c : Client) (p : Push)
    → IsPlain p
    → read_line c (push_line p) ≡ (bins c.bin p.nodes >>= with_known c p)
unfolding read_line
read_line-push_line c p h =
    rw (split-push_line p h, words-join p.nodes h.1)
      (ap (λ (k : List Text → Result (Option Push)). bins c.bin p.nodes >>= k)
        (λ i ns. read_known c p (all_known c.resolve ns) ns i))

pub read_lines-push_lines :
    (c : Client) (ps : List Push)
    → All IsPlain ps
    → read_lines c (map push_line ps) ≡ known_pushes c ps
unfolding read_lines known_pushes
read_lines-push_lines c [] h = refl
read_lines-push_lines c (p ∷ ps) h =
    rw (read_line-push_line c p h.0) (elim (Result-cases (bins c.bin p.nodes)) [
      | inl (ns, e) ↦ elim (Bool-cases (all_known c.resolve ns)) [
        | inl known ↦ rw (e, known, read_lines-push_lines c ps h.1) refl
        | inr unknown ↦ rw (e, unknown) refl
      ]
      | inr (x, e) ↦ rw e refl
    ])

IsLine-nonempty : (s t : Text) (x : ℕ) → any is_break (s ++ x ∷ t) ≡ false → IsLine (s ++ x ∷ t)
IsLine-nonempty [] t x h = h
IsLine-nonempty (c ∷ s) t x h = h

words-no_break : (ws : List Text) → All IsWord ws → any is_break (join (32 ∷ []) ws) ≡ false
unfolding join
words-no_break [] h = refl
words-no_break ([] ∷ ws) h = absurd h.0
words-no_break ((c ∷ w) ∷ []) h = not_space is_break (c ∷ w) (λ d e. ground (arith, e)) h.0
words-no_break ((c ∷ w) ∷ v ∷ ws) h =
    rw
      (
        any-append is_break (c ∷ w) (32 ∷ join (32 ∷ []) (v ∷ ws)),
        not_space is_break (c ∷ w) (λ d e. ground (arith, e)) h.0,
      )
      (words-no_break (v ∷ ws) h.1)

decimal-no_break : (n : ℕ) → any is_break (decimal n) ≡ false
decimal-no_break n = digits-other is_break (decimal n) (λ c d. ground (arith, d)) (decimal-digits n)

push_line-IsLine : (p : Push) → IsPlain p → IsLine (push_line p)
unfolding push_line
push_line-IsLine p h = IsLine-nonempty (decimal p.pushid) _ 32 (
    rw
      (
        any-append is_break (decimal p.pushid) _,
        any-append is_break p.user _,
        any-append is_break (decimal p.when) _,
        decimal-no_break p.pushid,
        decimal-no_break p.when,
        not_space is_break p.user (λ d e. ground (arith, e)) h.0,
      )
      (words-no_break p.nodes h.1))

push_lines-IsLine : (ps : List Push) → All IsPlain ps → All IsLine (map push_line ps)
push_lines-IsLine [] h = tt
push_lines-IsLine (p ∷ ps) h = (push_line-IsLine p h.0, push_lines-IsLine ps h.1)

-- The lines of the response to pushes.
pub splitlines-response :
    (ps : List Push)
    → All IsPlain ps
    → splitlines (join (10 ∷ []) (codes "1" ∷ map push_line ps)) ≡ codes "1" ∷ map push_line ps
splitlines-response ps h =
    splitlines-join (codes "1" ∷ map push_line ps) (refl, push_lines-IsLine ps h)

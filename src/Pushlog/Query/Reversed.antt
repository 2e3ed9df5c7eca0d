-- ===== src/Pushlog/Query/Reversed.antt =====
-- The two orders of the changesets are each other's reverse.
use mathlib.Core.List.{reverse, reverse-cons}
use version_control_tools_fx.Base.{
  ℕ, ◌<◌, ◌≡◌, refl, sym, ap, ◌∙◌, Bool, true, false, List, [], ◌∷◌, ◌++◌, map, any, All, Text,
  ◌==◌, leb, arith, Bool-cases, inl, inr,
}
use version_control_tools_fx.Pushlog.Db.{ChangesetRow, same_rev}
use version_control_tools_fx.Pushlog.Db.Rows.{Unique}
use version_control_tools_fx.Pushlog.Lookup.{insert_by, order_by, filter_rows, rev_before, nodes_of}
use version_control_tools_fx.Pushlog.Query.Ordered.{any-order_by}

abbrev Falling : List ChangesetRow → Type 0
Falling [] = Unit
Falling (c ∷ cs) = All (λ d. d.rev < c.rev) cs × Falling cs

insert_by-last :
    (x : ChangesetRow) (ys : List ChangesetRow)
    → All (λ d. d.rev < x.rev) ys
    → insert_by (rev_before false) x ys ≡ ys ++ x ∷ []
unfolding insert_by
insert_by-last x [] h = refl
insert_by-last x (y ∷ ys) h = ground (arith, h.0, insert_by-last x ys h.1)

insert_by-before :
    (x y : ChangesetRow) (zs : List ChangesetRow)
    → x.rev < y.rev
    → insert_by (rev_before false) x (zs ++ y ∷ []) ≡ insert_by (rev_before false) x zs ++ y ∷ []
unfolding insert_by
insert_by-before x y [] h = ground (arith, h)
insert_by-before x y (z ∷ zs) h = ground (arith, h, insert_by-before x y zs h)

abbrev Below : ℕ → List ChangesetRow → Type 0
Below n cs = All (λ d. d.rev < n) cs

Below-append : (n : ℕ) (xs ys : List ChangesetRow) → Below n xs → Below n ys → Below n (xs ++ ys)
Below-append n [] ys a b = b
Below-append n (x ∷ xs) ys a b = (a.0, Below-append n xs ys a.1 b)

Below-reverse : (n : ℕ) (xs : List ChangesetRow) → Below n xs → Below n (reverse xs)
Below-reverse n [] a = tt
Below-reverse n (x ∷ xs) a =
    rw (reverse-cons x xs) (Below-append n (reverse xs) (x ∷ []) (Below-reverse n xs a.1) (a.0, tt))

Below-imp : (m n : ℕ) (xs : List ChangesetRow) → m < n → Below m xs → Below n xs
Below-imp m n [] h a = tt
Below-imp m n (x ∷ xs) h a = (omega (arith, h, a.0), Below-imp m n xs h a.1)

insert_by-Falling :
    (x : ChangesetRow) (ys : List ChangesetRow)
    → any (same_rev x) ys ≡ false
    → Falling ys
    → Falling (insert_by (rev_before true) x ys)
      × ((n : ℕ) → x.rev < n → Below n ys → Below n (insert_by (rev_before true) x ys))
      × (reverse (insert_by (rev_before true) x ys) ≡ insert_by (rev_before false) x (reverse ys))
unfolding insert_by
insert_by-Falling x [] h f = ((tt, tt), (λ n l a. (l, tt)), refl)
insert_by-Falling x (y ∷ ys) h f = elim (Bool-cases (leb y.rev x.rev)) [
  | inl above ↦
      let less : y.rev < x.rev = ground (arith, above, h) in
      let all_less : Below x.rev (y ∷ ys) = (less, Below-imp y.rev x.rev ys less f.0) in
      rw above (
        (all_less, f),
        (λ n l a. (l, a)),
        reverse-cons x (y ∷ ys)
            ∙ sym (insert_by-last x (reverse (y ∷ ys)) (Below-reverse x.rev (y ∷ ys) all_less)),
      )
  | inr below ↦
      let less : x.rev < y.rev = ground (arith, below) in
      let (falls, bounded, turned) = insert_by-Falling x ys (ground (arith, h)) f.1 in
      rw below (
        (bounded y.rev less f.0, falls),
        (λ n l a. (a.0, bounded n l a.1)),
        reverse-cons y (insert_by (rev_before true) x ys)
            ∙ ap (λ zs. zs ++ y ∷ []) turned
            ∙ sym (insert_by-before x y (reverse ys) less)
            ∙ ap (insert_by (rev_before false) x) (sym (reverse-cons y ys)),
      )
]

order_by-reverse :
    (cs : List ChangesetRow)
    → Unique same_rev cs
    → Falling (order_by (rev_before true) cs)
      × (reverse (order_by (rev_before true) cs) ≡ order_by (rev_before false) cs)
unfolding order_by
order_by-reverse [] u = (tt, refl)
order_by-reverse (c ∷ cs) u =
    let (falls, turned) = order_by-reverse cs u.1 in
    let (still, _, around) =
      insert_by-Falling c (order_by (rev_before true) cs)
        (any-order_by (rev_before true) (same_rev c) cs ∙ u.0) falls in
    (still, around ∙ ap (insert_by (rev_before false) c) turned)

any-kept :
    (p keep : ChangesetRow → Bool) (xs : List ChangesetRow)
    → any p xs ≡ false
    → any p (filter_rows keep xs) ≡ false
unfolding filter_rows
any-kept p keep [] h = refl
any-kept p keep (x ∷ xs) h = ground (arith, h, any-kept p keep xs)

kept-Unique :
    (keep : ChangesetRow → Bool) (xs : List ChangesetRow)
    → Unique same_rev xs
    → Unique same_rev (filter_rows keep xs)
unfolding filter_rows
kept-Unique keep [] u = tt
kept-Unique keep (x ∷ xs) u = elim (Bool-cases (keep x)) [
  | inl kept ↦ rw kept (any-kept (same_rev x) keep xs u.0, kept-Unique keep xs u.1)
  | inr out ↦ rw out (kept-Unique keep xs u.1)
]

map-reverse :
    (f : ChangesetRow → Text) (xs : List ChangesetRow) → reverse (map f xs) ≡ map f (reverse xs)
map-reverse f [] = refl
map-reverse f (x ∷ xs) =
    reverse-cons (f x) (map f xs)
    ∙ ap (λ ys. ys ++ f x ∷ []) (map-reverse f xs)
    ∙ sym (map-snoc (reverse xs))
    ∙ ap (map f) (sym (reverse-cons x xs))
  where
    map-snoc : (ys : List ChangesetRow) → map f (ys ++ x ∷ []) ≡ map f ys ++ f x ∷ []
    map-snoc [] = refl
    map-snoc (y ∷ ys) = ap (λ zs. f y ∷ zs) (map-snoc ys)

-- The nodes of a push by falling revision are, from the last to the first, those by rising one.
pub nodes_of-reverse :
    (id : ℕ) (cs : List ChangesetRow)
    → Unique same_rev cs
    → reverse (nodes_of true id cs) ≡ nodes_of false id cs
unfolding nodes_of
nodes_of-reverse id cs u =
    let own = filter_rows (λ (c : ChangesetRow). c.pushid == id) cs in
    map-reverse (λ c. c.node) (order_by (rev_before true) own)
    ∙ ap (map (λ (c : ChangesetRow). c.node)) (order_by-reverse own (kept-Unique _ cs u)).1

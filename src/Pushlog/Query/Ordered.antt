-- ===== src/Pushlog/Query/Ordered.antt =====
-- The parts of a query keep the ids apart.
use version_control_tools_fx.Base.{
  ℕ, zero, suc, ◌≡◌, refl, Bool, false, ◌||◌, List, [], ◌∷◌, any, take, drop, Option, none, some,
  arith, Bool-cases, inl, inr,
}
use version_control_tools_fx.Pushlog.Db.{PushRow, Db, same_id}
use version_control_tools_fx.Pushlog.Db.Rows.{Unique}
use version_control_tools_fx.Pushlog.Lookup.{insert_by, order_by, filter_rows, id_before}
use version_control_tools_fx.Pushlog.Select.{Args, Window, take_limit, drop_offset, inner}

module _ {A : Type 0} (before : A → A → Bool) where
  any-insert_by :
      (p : A → Bool) (x : A) (ys : List A) → any p (insert_by before x ys) ≡ (p x || any p ys)
  unfolding insert_by
  any-insert_by p x [] = refl
  any-insert_by p x (y ∷ ys) = ground (arith, any-insert_by p x ys)

  -- Sorted rows are the same rows.
  pub any-order_by : (p : A → Bool) (xs : List A) → any p (order_by before xs) ≡ any p xs
  unfolding order_by
  any-order_by p [] = refl
  any-order_by p (x ∷ xs) =
      ground (arith, any-insert_by p x (order_by before xs), any-order_by p xs)

module _ (before : PushRow → PushRow → Bool) where
  insert_by-Unique :
      (x : PushRow) (ys : List PushRow)
      → any (same_id x) ys ≡ false
      → Unique same_id ys
      → Unique same_id (insert_by before x ys)
  unfolding insert_by
  insert_by-Unique x [] h u = (refl, tt)
  insert_by-Unique x (y ∷ ys) h u = elim (Bool-cases (before x y)) [
    | inl first ↦ rw first (h, (u.0, u.1))
    | inr later ↦ rw later (
      ground (arith, any-insert_by before (same_id y) x ys, u.0, h),
      insert_by-Unique x ys (ground (arith, h)) u.1,
    )
  ]

  order_by-Unique : (xs : List PushRow) → Unique same_id xs → Unique same_id (order_by before xs)
  unfolding order_by
  order_by-Unique [] u = tt
  order_by-Unique (x ∷ xs) u =
      insert_by-Unique x (order_by before xs) (rw (any-order_by before (same_id x) xs) u.0)
        (order_by-Unique xs u.1)

any-filter_rows :
    (p keep : PushRow → Bool) (xs : List PushRow)
    → any p xs ≡ false
    → any p (filter_rows keep xs) ≡ false
unfolding filter_rows
any-filter_rows p keep [] h = refl
any-filter_rows p keep (x ∷ xs) h = ground (arith, h, any-filter_rows p keep xs)

filter_rows-Unique :
    (keep : PushRow → Bool) (xs : List PushRow)
    → Unique same_id xs
    → Unique same_id (filter_rows keep xs)
unfolding filter_rows
filter_rows-Unique keep [] u = tt
filter_rows-Unique keep (x ∷ xs) u = elim (Bool-cases (keep x)) [
  | inl kept ↦ rw kept (any-filter_rows (same_id x) keep xs u.0, filter_rows-Unique keep xs u.1)
  | inr out ↦ rw out (filter_rows-Unique keep xs u.1)
]

any-take :
    (p : PushRow → Bool) (n : ℕ) (xs : List PushRow) → any p xs ≡ false → any p (take n xs) ≡ false
any-take p zero xs h = refl
any-take p (suc n) [] h = refl
any-take p (suc n) (x ∷ xs) h = ground (arith, h, any-take p n xs)

take-Unique : (n : ℕ) (xs : List PushRow) → Unique same_id xs → Unique same_id (take n xs)
take-Unique zero xs u = tt
take-Unique (suc n) [] u = tt
take-Unique (suc n) (x ∷ xs) u = (any-take (same_id x) n xs u.0, take-Unique n xs u.1)

drop-Unique : (n : ℕ) (xs : List PushRow) → Unique same_id xs → Unique same_id (drop n xs)
drop-Unique zero xs u = u
drop-Unique (suc n) [] u = tt
drop-Unique (suc n) (x ∷ xs) u = drop-Unique n xs u.1

limit-Unique :
    (o : Option ℕ) (xs : List PushRow) → Unique same_id xs → Unique same_id (take_limit o xs)
limit-Unique none xs u = u
limit-Unique (some n) xs u = take-Unique n xs u

offset-Unique :
    (o : Option ℕ) (xs : List PushRow) → Unique same_id xs → Unique same_id (drop_offset o xs)
offset-Unique none xs u = u
offset-Unique (some n) xs u = drop-Unique n xs u

pub inner-Unique :
    (a : Args) (w : Window) (db : Db) → Unique same_id db.pushlog → Unique same_id (inner a w db)
unfolding inner
inner-Unique a w db u = limit-Unique a.limit _ (
    offset-Unique a.offset _
      (order_by-Unique (id_before a.reverse) _ (filter_rows-Unique _ db.pushlog u)))

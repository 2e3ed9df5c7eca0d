-- ===== src/Pushlog/Db/Rows.antt =====
-- Rows without a clash, and what the statements keep of the tables.
use Prim.Native.Nat.{max}
use mathlib.Core.Path.{subst}
use version_control_tools_fx.Base.{
  ℕ, suc, ◌≤◌, ◌<◌, ◌≡◌, refl, Bool, true, false, ◌||◌, List, [], ◌∷◌, ◌++◌, Text, any, All, ◌==◌,
  arith, Bool-cases, inl, inr,
}
use version_control_tools_fx.Base.Result.{ok}
use version_control_tools_fx.Pushlog.Db.{
  PushRow, ChangesetRow, Db, same_id, same_node, same_rev, insert_push, insert_push_as,
  insert_changeset,
}

-- No row clashes with one behind it.
abbrev pub Unique : {A : Type 0} → (A → A → Bool) → List A → Type 0
Unique clash [] = Unit
Unique clash (x ∷ xs) = (any (clash x) xs ≡ false) × Unique clash xs

any-snoc :
    {A : Type 0} (p : A → Bool) (xs : List A) (x : A) → any p (xs ++ x ∷ []) ≡ (any p xs || p x)
any-snoc p [] x = ground arith
any-snoc p (y ∷ ys) x = ground (arith, any-snoc p ys x)

pub Unique-snoc :
    {A : Type 0} (clash : A → A → Bool) (xs : List A) (x : A)
    → any (λ y. clash y x) xs ≡ false
    → Unique clash xs
    → Unique clash (xs ++ x ∷ [])
Unique-snoc clash [] x h u = (refl, tt)
Unique-snoc clash (y ∷ ys) x h u =
    (ground (arith, any-snoc (clash y) ys x, u.0), Unique-snoc clash ys x (ground (arith, h)) u.1)

pub All-snoc :
    {A : Type 0} (P : A → Type 0) (xs : List A) (x : A) → All P xs → P x → All P (xs ++ x ∷ [])
All-snoc P [] x a h = (h, tt)
All-snoc P (y ∷ ys) x a h = (a.0, All-snoc P ys x a.1 h)

pub All-imp :
    {A : Type 0} (P Q : A → Type 0) (xs : List A) → ((x : A) → P x → Q x) → All P xs → All Q xs
All-imp P Q [] f a = tt
All-imp P Q (x ∷ xs) f a = (f x a.0, All-imp P Q xs f a.1)

-- The tables are in order: ids, nodes and revisions are unique, no id is above the sequence, and
-- each changeset belongs to a push that is there.
pub record IsPushlog (db : Db) : Type 0 where
  pub ids : Unique same_id db.pushlog
  pub below : All (λ p. p.id ≤ db.sequence) db.pushlog
  pub nodes : Unique same_node db.changesets
  pub revs : Unique same_rev db.changesets
  pub owned : All (λ c. any (λ p. p.id == c.pushid) db.pushlog ≡ true) db.changesets

fresh_id :
    (n : ℕ) (p : PushRow) (ps : List PushRow)
    → All (λ q. q.id ≤ n) ps
    → n < p.id
    → any (λ q. same_id q p) ps ≡ false
fresh_id n p [] a h = refl
fresh_id n p (q ∷ qs) a h = ground (arith, a.0, fresh_id n p qs a.1 h)

still_owned :
    (k : ℕ) (ps : List PushRow) (p : PushRow)
    → any (λ q. q.id == k) ps ≡ true
    → any (λ q. q.id == k) (ps ++ p ∷ []) ≡ true
still_owned k ps p h = ground (arith, any-snoc (λ q. q.id == k) ps p)

-- One more push, with an id that no push has.
extended-IsPushlog :
    (p : PushRow) (n : ℕ) (db : Db)
    → any (λ q. same_id q p) db.pushlog ≡ false
    → db.sequence ≤ n
    → p.id ≤ n
    → IsPushlog db
    → IsPushlog (record db { pushlog = db.pushlog ++ p ∷ []; sequence = n })
extended-IsPushlog p n db fresh grows fits v = record {
  ids = Unique-snoc same_id db.pushlog p fresh v.ids;
  below =
      All-snoc (λ q. q.id ≤ n) db.pushlog p
        (All-imp (λ q. q.id ≤ db.sequence) (λ q. q.id ≤ n) db.pushlog (λ q h. omega (arith, h))
          v.below)
        fits;
  nodes = v.nodes;
  revs = v.revs;
  owned =
      All-imp (λ c. any (λ q. q.id == c.pushid) db.pushlog ≡ true)
        (λ c. any (λ q. q.id == c.pushid) (db.pushlog ++ p ∷ []) ≡ true) db.changesets
        (λ c h. still_owned c.pushid db.pushlog p h) v.owned;
}

pub insert_push-IsPushlog :
    (user : Text) (date : ℕ) (db : Db) → IsPushlog db → IsPushlog (insert_push user date db).1
unfolding insert_push
insert_push-IsPushlog user date db v =
    let p : PushRow = record { id = suc db.sequence; user = user; date = date } in
    extended-IsPushlog p (suc db.sequence) db
      (fresh_id db.sequence p db.pushlog v.below (omega arith)) (omega arith) (omega arith) v

pub insert_push_as-IsPushlog :
    (p : PushRow) (db : Db) {db' : Db} → insert_push_as p db ≡ ok db' → IsPushlog db → IsPushlog db'
unfolding insert_push_as
insert_push_as-IsPushlog p db {db'} h v = elim (Bool-cases (any (λ q. same_id q p) db.pushlog)) [
  | inl clash ↦ cc (rw (clash, insert_push_as) at h)
  | inr fresh ↦
      let found : ok (record db { pushlog = db.pushlog ++ p ∷ []; sequence = max db.sequence p.id })
          ≡ ok db' =
        rw (fresh, insert_push_as) at h in
      let is : record db { pushlog = db.pushlog ++ p ∷ []; sequence = max db.sequence p.id } ≡ db' =
        cc in
      subst IsPushlog is
        (extended-IsPushlog p (max db.sequence p.id) db fresh (omega arith) (omega arith) v)
]

pub insert_changeset-IsPushlog :
    (c : ChangesetRow) (db : Db) {db' : Db}
    → insert_changeset c db ≡ ok db'
    → any (λ p. p.id == c.pushid) db.pushlog ≡ true
    → IsPushlog db
    → IsPushlog db'
unfolding insert_changeset
insert_changeset-IsPushlog c db {db'} h o v =
    let clash = any (λ d. same_node d c) db.changesets || any (λ d. same_rev d c) db.changesets in
    let db1 : Db = record db { changesets = db.changesets ++ c ∷ [] } in
    elim (Bool-cases clash) [
      | inl there ↦ cc (rw (there, insert_changeset) at h)
      | inr free ↦
          let found : ok db1 ≡ ok db' = rw (free, insert_changeset) at h in
          let is : db1 ≡ db' = cc in
          subst IsPushlog is (record {
            ids = v.ids;
            below = v.below;
            nodes = Unique-snoc same_node db.changesets c (ground (arith, free)) v.nodes;
            revs = Unique-snoc same_rev db.changesets c (ground (arith, free)) v.revs;
            owned =
                All-snoc (λ d. any (λ p. p.id == d.pushid) db.pushlog ≡ true) db.changesets c
                  v.owned o;
          })
    ]

-- ===== src/Unify/Ready.antt =====
-- Nodes that the destination can record, and pushes of them.
use Prim.Native.Nat.{max}
use mathlib.Core.Path.{subst}
use version_control_tools_fx.Base.{
  ℕ, zero, suc, ◌≤◌, ◌≡◌, refl, sym, ap, ◌∙◌, Bool, true, false, ◌||◌, List, [], ◌∷◌, ◌++◌, some,
  Text, text_eq, text_eq_iff, any, any-append, All, arith, Bool-cases, inl, inr, ◌==◌,
}
use version_control_tools_fx.Base.Result.{ok}
use version_control_tools_fx.Hooks.Roots.{member, difference, is_empty}
use version_control_tools_fx.Pushlog.Db.{
  PushRow, ChangesetRow, Db, same_id, same_node, same_rev, insert_push_as, insert_changeset, max_id,
}
use version_control_tools_fx.Pushlog.Db.Rows.{Unique, All-snoc}
use version_control_tools_fx.Pushlog.Record.{insert_nodes, recordpushes}
use version_control_tools_fx.Unify.Collect.{position, resolve}
use version_control_tools_fx.Unify.Pushes.{UnifiedPush, new_from}

position-inj :
    (n m : Text) (log : List Text) (k : ℕ)
    → position n log ≡ some k
    → position m log ≡ some k
    → n ≡ m
unfolding position
position-inj n m [] k h g = absurd (cc h)
position-inj n m (x ∷ log) zero h g = ground (arith, text_eq_iff n x, text_eq_iff m x)
position-inj n m (x ∷ log) (suc k) h g =
    ground (arith, text_eq_iff n x, text_eq_iff m x, position-inj n m log k)

-- A node is recorded.
abbrev pub in_db : Text → Db → Bool
in_db n db = any (λ (c : ChangesetRow). text_eq n c.node) db.changesets

-- Nodes that can be recorded: each is new, once in the list and in the repository, as are the nodes
-- that are recorded.
pub record Ready (log : List Text) (db : Db) (ns : List Text) : Type 0 where
  pub fresh : All (λ n. in_db n db ≡ false) ns
  pub distinct : Unique text_eq ns
  pub there : All (λ n. (rev : ℕ) × (position n log ≡ some rev)) ns
  pub agree : All (λ (c : ChangesetRow). position c.node log ≡ some c.rev) db.changesets

fresh-node :
    (c : ChangesetRow) (cs : List ChangesetRow)
    → any (λ (d : ChangesetRow). text_eq c.node d.node) cs ≡ false
    → any (λ d. same_node d c) cs ≡ false
fresh-node c [] h = refl
fresh-node c (d ∷ cs) h =
    ground (arith, fresh-node c cs, text_eq_iff c.node d.node, text_eq_iff d.node c.node)

fresh-rev :
    (log : List Text) (c : ChangesetRow) (cs : List ChangesetRow)
    → position c.node log ≡ some c.rev
    → All (λ (d : ChangesetRow). position d.node log ≡ some d.rev) cs
    → any (λ (d : ChangesetRow). text_eq c.node d.node) cs ≡ false
    → any (λ d. same_rev d c) cs ≡ false
fresh-rev log c [] p a h = refl
fresh-rev log c (d ∷ cs) p a h = elim (Bool-cases (d.rev == c.rev)) [
  | inr other ↦ ground (arith, other, fresh-rev log c cs p a.1)
  | inl same ↦
      let rev : d.rev ≡ c.rev = ground (arith, same) in
      let node : c.node ≡ d.node = position-inj c.node d.node log c.rev p (a.0 ∙ ap some rev) in
      absurd (ground (arith, h, text_eq_iff c.node d.node, node))
]

abbrev row_of : ℕ → Text → ℕ → ChangesetRow
row_of pushid n rev = record { pushid = pushid; rev = rev; node = n }

-- One node is recorded, and the others still can be.
insert-Ready :
    (log : List Text) (pushid : ℕ) (n : Text) (ns : List Text) (rev : ℕ) (db : Db)
    → position n log ≡ some rev
    → Ready log db (n ∷ ns)
    → (insert_changeset (row_of pushid n rev) db
        ≡ ok (record db { changesets = db.changesets ++ row_of pushid n rev ∷ [] }))
      × Ready log (record db { changesets = db.changesets ++ row_of pushid n rev ∷ [] }) ns
unfolding insert_changeset
insert-Ready log pushid n ns rev db e r =
    let c = row_of pushid n rev in
    let node = fresh-node c db.changesets r.fresh.0 in
    let revs = fresh-rev log c db.changesets e r.agree r.fresh.0 in
    (
      rw (node, revs) refl,
      record {
        fresh = still_fresh c db.changesets ns r.fresh.1 r.distinct.0;
        distinct = r.distinct.1;
        there = r.there.1;
        agree =
            All-snoc (λ (d : ChangesetRow). position d.node log ≡ some d.rev) db.changesets c
              r.agree e;
      },
    )
  where
    still_fresh :
        (c : ChangesetRow) (cs : List ChangesetRow) (ns : List Text)
        → All (λ n. any (λ (d : ChangesetRow). text_eq n d.node) cs ≡ false) ns
        → any (text_eq c.node) ns ≡ false
        → All (λ n. any (λ (d : ChangesetRow). text_eq n d.node) (cs ++ c ∷ []) ≡ false) ns
    still_fresh c cs [] a h = tt
    still_fresh c cs (n ∷ ns) a h = (
      ground (
        arith,
        a.0,
        h,
        any-append (λ (d : ChangesetRow). text_eq n d.node) cs (c ∷ []),
        text_eq_iff n c.node,
        text_eq_iff c.node n,
      ),
      still_fresh c cs ns a.1 (ground (arith, h)),
    )

in_db-snoc :
    (n : Text) (db : Db) (c : ChangesetRow)
    → in_db n (record db { changesets = db.changesets ++ c ∷ [] })
      ≡ (in_db n db || text_eq n c.node)
in_db-snoc n db c =
    ground (arith, any-append (λ (d : ChangesetRow). text_eq n d.node) db.changesets (c ∷ []))

-- A push's nodes are recorded, and those behind them still can be.
insert_nodes-Ready :
    (log : List Text) (pushid : ℕ) (ns rest : List Text) (db : Db)
    → Ready log db (ns ++ rest)
    → (db' : Db) × (insert_nodes (resolve log) pushid ns db ≡ ok db')
      × Ready log db' rest
      × (db'.pushlog ≡ db.pushlog)
      × ((n : Text) → in_db n db' ≡ (in_db n db || member n ns))
unfolding insert_nodes member
insert_nodes-Ready log pushid [] rest db r = (db, refl, r, refl, λ n. ground arith)
insert_nodes-Ready log pushid (n ∷ ns) rest db r =
    let (rev, e) = r.there.0 in
    let (first, r') = insert-Ready log pushid n (ns ++ rest) rev db e r in
    let db1 : Db = record db { changesets = db.changesets ++ row_of pushid n rev ∷ [] } in
    let found : resolve log n ≡ some (rev, n) = rw (resolve, e) refl in
    let (db', done, ready, same, there) = insert_nodes-Ready log pushid ns rest db1 r' in
    (
      db',
      rw (found, first) done,
      ready,
      same,
      λ k. ground (arith, there k, in_db-snoc k db (row_of pushid n rev)),
    )

-- The nodes of the pushes in turn.
abbrev pub unified_nodes : List UnifiedPush → List Text
unified_nodes [] = []
unified_nodes (u ∷ us) = u.nodes ++ unified_nodes us

-- No id is above the last one.
max_id-fresh :
    (p : PushRow) (ps : List PushRow) (last : ℕ)
    → max_id ps ≤ last
    → p.id ≡ suc last
    → any (λ q. same_id q p) ps ≡ false
unfolding max_id
max_id-fresh p [] last h e = refl
max_id-fresh p (q ∷ ps) last h e =
    let low : max_id ps ≤ last = omega (arith, h) in
    let mine : q.id ≤ last = omega (arith, h) in
    ground (arith, mine, e, max_id-fresh p ps last low e)

max_id-snoc : (ps : List PushRow) (p : PushRow) → max_id (ps ++ p ∷ []) ≡ max (max_id ps) p.id
unfolding max_id
max_id-snoc [] p = omega arith
max_id-snoc (q ∷ qs) p = omega (arith, max_id-snoc qs p)

difference-append :
    (xs ys known : List Text)
    → difference (xs ++ ys) known ≡ difference xs known ++ difference ys known
unfolding difference
difference-append [] ys known = refl
difference-append (x ∷ xs) ys known = ground (arith, difference-append xs ys known)

pub member-append :
    (n : Text) (xs ys : List Text) → member n (xs ++ ys) ≡ (member n xs || member n ys)
unfolding member
member-append n [] ys = refl
member-append n (x ∷ xs) ys = ground (arith, member-append n xs ys)

is_empty-nil : (xs : List Text) → is_empty xs ≡ true → xs ≡ []
is_empty-nil [] h = refl
is_empty-nil (x ∷ xs) h = absurd (cc h)

-- The new pushes can be recorded, and record the nodes that are missing.
pub new_from-Ready :
    (log known : List Text) (last : ℕ) (us : List UnifiedPush) (db : Db)
    → Ready log db (difference (unified_nodes us) known)
    → max_id db.pushlog ≤ last
    → (db' : Db) × (recordpushes (resolve log) (new_from known last us) db ≡ ok db')
      × ((n : Text) → in_db n db' ≡ (in_db n db || member n (difference (unified_nodes us) known)))
unfolding recordpushes new_from member difference
new_from-Ready log known last [] db r low = (db, refl, λ n. ground arith)
new_from-Ready log known last (u ∷ us) db r low =
    let parts = difference-append u.nodes (unified_nodes us) known in
    let missing = difference u.nodes known in
    let ready : Ready log db (missing ++ difference (unified_nodes us) known) =
      subst (Ready log db) parts r in
    elim (Bool-cases (is_empty missing)) [
      | inl none_missing ↦
          let nil = is_empty-nil missing none_missing in
          let (db', done, there) =
            new_from-Ready log known last us db
              (subst (λ ns. Ready log db (ns ++ difference (unified_nodes us) known)) nil ready)
              low in
          (
            db',
            rw (new_from, none_missing) done,
            λ n.
                there n
                ∙ ap (λ ns. in_db n db || member n ns)
                    (sym (parts ∙ ap (λ ns. ns ++ difference (unified_nodes us) known) nil)),
          )
      | inr some_missing ↦
          let p : PushRow = record { id = suc last; user = u.who; date = u.when } in
          let db1 : Db = record db {
            pushlog = db.pushlog ++ p ∷ [];
            sequence = max db.sequence (suc last);
          } in
          let inserted : insert_push_as p db ≡ ok db1 =
            rw (insert_push_as, max_id-fresh p db.pushlog last low refl) refl in
          let (db2, nodes, ready2, same, there) =
            insert_nodes-Ready log (suc last) missing (difference (unified_nodes us) known) db1
              (record {
                fresh = ready.fresh;
                distinct = ready.distinct;
                there = ready.there;
                agree = ready.agree;
              }) in
          let low2 : max_id db2.pushlog ≤ suc last =
            omega (arith, ap max_id same ∙ max_id-snoc db.pushlog p, low) in
          let (db', done, later) = new_from-Ready log known (suc last) us db2 ready2 low2 in
          (
            db',
            rw (new_from, some_missing, inserted, nodes) done,
            λ n. ground (
              arith,
              later n,
              there n,
              parts,
              member-append n missing (difference (unified_nodes us) known),
            ),
          )
    ]

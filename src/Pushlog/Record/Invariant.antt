-- ===== src/Pushlog/Record/Invariant.antt =====
-- Recording pushes keeps the tables in order, and takes growing ids.
use Prim.Native.Nat.{max}
use mathlib.Core.Path.{subst, sym}
use version_control_tools_fx.Base.{
  ℕ, suc, ◌≤◌, ◌<◌, ◌≡◌, ◌∙◌, true, List, [], ◌∷◌, ◌++◌, Option, Text, any, All, arith, ◌==◌, ap,
}
use version_control_tools_fx.Base.Result.{ok, other_error, require, >>=-eq-ok}
use version_control_tools_fx.Pushlog.Db.{
  PushRow, ChangesetRow, Db, insert_push, insert_push_as, insert_changeset, max_id, lastpushid,
}
use version_control_tools_fx.Pushlog.Db.Rows.{
  IsPushlog, insert_push-IsPushlog, insert_push_as-IsPushlog, insert_changeset-IsPushlog,
}
use version_control_tools_fx.Pushlog.Record.{Push, insert_nodes, recordpush, recordpushes}

-- A changeset leaves the pushes as they are.
insert_changeset-pushlog :
    (c : ChangesetRow) (db : Db) {db' : Db}
    → insert_changeset c db ≡ ok db'
    → db'.pushlog ≡ db.pushlog
unfolding insert_changeset
insert_changeset-pushlog c db h = ground arith

pub insert_nodes-pushlog :
    {N : Type 0} (resolve : N → Option (ℕ × Text)) (pushid : ℕ) (es : List N) (db : Db) {db' : Db}
    → insert_nodes resolve pushid es db ≡ ok db'
    → db'.pushlog ≡ db.pushlog
unfolding insert_nodes
insert_nodes-pushlog resolve pushid [] db {db'} h =
    let same : db ≡ db' = cc in ap (λ (d : Db). d.pushlog) (sym same)
insert_nodes-pushlog resolve pushid (e ∷ es) db h =
    let (c, _, h') = >>=-eq-ok (require other_error (resolve e)) _ h in
    let row : ChangesetRow = record { pushid = pushid; rev = c.0; node = c.1 } in
    let (db1, first, rest) = >>=-eq-ok (insert_changeset row db) _ h' in
    insert_nodes-pushlog resolve pushid es db1 rest ∙ insert_changeset-pushlog row db first

insert_nodes-IsPushlog :
    {N : Type 0} (resolve : N → Option (ℕ × Text)) (pushid : ℕ) (es : List N) (db : Db) {db' : Db}
    → insert_nodes resolve pushid es db ≡ ok db'
    → any (λ p. p.id == pushid) db.pushlog ≡ true
    → IsPushlog db
    → IsPushlog db'
unfolding insert_nodes
insert_nodes-IsPushlog resolve pushid [] db {db'} h o v =
    let same : db ≡ db' = cc in subst IsPushlog same v
insert_nodes-IsPushlog resolve pushid (e ∷ es) db h o v =
    let (c, _, h') = >>=-eq-ok (require other_error (resolve e)) _ h in
    let row : ChangesetRow = record { pushid = pushid; rev = c.0; node = c.1 } in
    let (db1, first, rest) = >>=-eq-ok (insert_changeset row db) _ h' in
    insert_nodes-IsPushlog resolve pushid es db1 rest (rw (insert_changeset-pushlog row db first) o)
      (insert_changeset-IsPushlog row db first o v)

-- The new row's id is there.
snoc_id : (ps : List PushRow) (p : PushRow) → any (λ q. q.id == p.id) (ps ++ p ∷ []) ≡ true
snoc_id [] p = ground arith
snoc_id (q ∷ qs) p = ground (arith, snoc_id qs p)

inserted_id :
    (user : Text) (date : ℕ) (db : Db)
    → any (λ q. q.id == (insert_push user date db).0) (insert_push user date db).1.pushlog ≡ true
unfolding insert_push
inserted_id user date db = snoc_id db.pushlog _

inserted_as_id :
    (p : PushRow) (db : Db) {db' : Db}
    → insert_push_as p db ≡ ok db'
    → any (λ q. q.id == p.id) db'.pushlog ≡ true
unfolding insert_push_as
inserted_as_id p db h = ground (arith, snoc_id db.pushlog p)

-- A recorded push keeps the tables in order.
pub recordpush-IsPushlog :
    {N : Type 0} (resolve : N → Option (ℕ × Text)) (nodes : List N) (user : Text) (when : ℕ)
    (db : Db) {db' : Db}
    → recordpush resolve nodes user when db ≡ ok db'
    → IsPushlog db
    → IsPushlog db'
unfolding recordpush
recordpush-IsPushlog resolve nodes user when db h v =
    let (id, db1) = insert_push user when db in
    insert_nodes-IsPushlog resolve id nodes db1 h (inserted_id user when db)
      (insert_push-IsPushlog user when db v)

-- So do pushes that a mirror records, whatever ids they claim.
pub recordpushes-IsPushlog :
    (resolve : Text → Option (ℕ × Text)) (ps : List Push) (db : Db) {db' : Db}
    → recordpushes resolve ps db ≡ ok db'
    → IsPushlog db
    → IsPushlog db'
unfolding recordpushes
recordpushes-IsPushlog resolve [] db {db'} h v = let same : db ≡ db' = cc in subst IsPushlog same v
recordpushes-IsPushlog resolve (p ∷ ps) db h v =
    let row : PushRow = record { id = p.pushid; user = p.user; date = p.when } in
    let (db1, first, h') = >>=-eq-ok (insert_push_as row db) _ h in
    let (db2, second, rest) = >>=-eq-ok (insert_nodes resolve p.pushid p.nodes db1) _ h' in
    recordpushes-IsPushlog resolve ps db2 rest (
      insert_nodes-IsPushlog resolve p.pushid p.nodes db1 second (inserted_as_id row db first)
        (insert_push_as-IsPushlog row db first v))

max_id-snoc : (ps : List PushRow) (p : PushRow) → max_id (ps ++ p ∷ []) ≡ max (max_id ps) p.id
unfolding max_id
max_id-snoc [] p = omega arith
max_id-snoc (q ∷ qs) p = omega (arith, max_id-snoc qs p)

max_id-le : (ps : List PushRow) (n : ℕ) → All (λ p. p.id ≤ n) ps → max_id ps ≤ n
unfolding max_id
max_id-le [] n a = omega arith
max_id-le (p ∷ ps) n a = omega (arith, a.0, max_id-le ps n a.1)

-- The id of a recorded push is above each id before it, and is then the last.
pub recordpush-lastpushid :
    {N : Type 0} (resolve : N → Option (ℕ × Text)) (nodes : List N) (user : Text) (when : ℕ)
    (db : Db) {db' : Db}
    → recordpush resolve nodes user when db ≡ ok db'
    → IsPushlog db
    → (lastpushid db' ≡ suc db.sequence) × (lastpushid db < lastpushid db')
unfolding recordpush insert_push
recordpush-lastpushid resolve nodes user when db {db'} h v =
    let p : PushRow = record { id = suc db.sequence; user = user; date = when } in
    let same = insert_nodes-pushlog resolve (suc db.sequence) nodes _ h in
    let last : lastpushid db' ≡ max (max_id db.pushlog) (suc db.sequence) =
      ap max_id same ∙ max_id-snoc db.pushlog p in
    let low = max_id-le db.pushlog db.sequence v.below in
    (omega (arith, last, low), omega (arith, last, low))

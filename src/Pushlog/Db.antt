-- ===== src/Pushlog/Db.antt =====
-- The two tables of pushlog2.db and the statements that write them.
pub mod Rows
use Prim.Native.Nat.{max}
use version_control_tools_fx.Base.{
  ℕ, suc, Bool, true, false, ◌||◌, List, [], ◌∷◌, ◌++◌, Option, none, some, Text, text_eq, any,
  ◌==◌, if◌then◌else◌,
}
use version_control_tools_fx.Base.Result.{Result, ok, err, other_error}

-- A row of `pushlog`.
pub record PushRow : Type 0 where
  pub id : ℕ
  pub user : Text
  pub date : ℕ

-- A row of `changesets`.
pub record ChangesetRow : Type 0 where
  pub pushid : ℕ
  pub rev : ℕ
  pub node : Text

-- The tables, and the greatest id that `AUTOINCREMENT` has seen.
pub record Db : Type 0 where
  pub pushlog : List PushRow
  pub changesets : List ChangesetRow
  pub sequence : ℕ

abbrev pub same_id : PushRow → PushRow → Bool
same_id p q = p.id == q.id

-- The unique indexes `changeset_node` and `changeset_rev`.
abbrev pub same_node : ChangesetRow → ChangesetRow → Bool
same_node c d = text_eq c.node d.node

abbrev pub same_rev : ChangesetRow → ChangesetRow → Bool
same_rev c d = c.rev == d.rev

-- `INSERT INTO pushlog (user, date)`: the new id, and the tables
unfoldable pub insert_push : Text → ℕ → Db → ℕ × Db
insert_push user date db =
    let id = suc db.sequence in
    (
      id,
      record db {
        pushlog = db.pushlog ++ record { id = id; user = user; date = date } ∷ [];
        sequence = id;
      },
    )

-- `INSERT INTO pushlog (id, user, date)`, which an id that is there makes fail
unfoldable pub insert_push_as : PushRow → Db → Result Db
insert_push_as p db =
    if any (λ q. same_id q p) db.pushlog
    then err other_error
    else ok (record db { pushlog = db.pushlog ++ p ∷ []; sequence = max db.sequence p.id })

-- `INSERT INTO changesets`, which fails on the unique indexes
unfoldable pub insert_changeset : ChangesetRow → Db → Result Db
insert_changeset c db =
    if any (λ d. same_node d c) db.changesets || any (λ d. same_rev d c) db.changesets
    then err other_error
    else ok (record db { changesets = db.changesets ++ c ∷ [] })

-- `SELECT id FROM pushlog ORDER BY id DESC`, its first row, or 0
unfoldable pub max_id : List PushRow → ℕ
max_id [] = 0
max_id (p ∷ ps) = max p.id (max_id ps)

-- `lastpushid`
abbrev pub lastpushid : Db → ℕ
lastpushid db = max_id db.pushlog

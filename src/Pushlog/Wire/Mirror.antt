-- ===== src/Pushlog/Wire/Mirror.antt =====
-- The rows that a pull adds.
use version_control_tools_fx.Base.{
  ℕ, ◌+◌, suc, ◌≤◌, ◌≡◌, sym, ap, ◌∙◌, true, false, List, [], ◌∷◌, ◌++◌, append-nil, append_assoc,
  map, take, length, Option, Text, codes, text_eq, any, All, arith, Bool-cases, inl, inr,
  if◌then◌else◌,
}
use mathlib.Core.Path.{subst}
use version_control_tools_fx.Base.Result.{Result, Error, ok, ◌>>=◌, >>=-eq-ok}
use version_control_tools_fx.Base.Decimal.{decimal}
use version_control_tools_fx.Pushlog.Db.{PushRow, Db, lastpushid, insert_push_as}
use version_control_tools_fx.Pushlog.Db.Rows.{IsPushlog}
use version_control_tools_fx.Pushlog.Record.{Push, insert_nodes, recordpushes}
use version_control_tools_fx.Pushlog.Record.Invariant.{insert_nodes-pushlog, recordpushes-IsPushlog}
use version_control_tools_fx.Pushlog.Lookup.{Repo}
use version_control_tools_fx.Pushlog.Wire.{
  pushlogwireproto, Client, bins, all_known, exchangepullpushlog,
}
use version_control_tools_fx.Pushlog.Wire.Lines.{IsPlain, known_pushes}
use version_control_tools_fx.Pushlog.Wire.Pull.{served, AllRefused, pull-replicates}

-- A push's row.
abbrev pub row_of : Push → PushRow
row_of p = record { id = p.pushid; user = p.user; date = p.when }

-- The known pushes are the first ones.
known_pushes-rows :
    (c : Client) (ps : List Push) {qs : List Push}
    → known_pushes c ps ≡ ok qs
    → (k : ℕ) × (map row_of qs ≡ map row_of (take k ps))
unfolding known_pushes
known_pushes-rows c [] {qs} h =
    let found : ok [] ≡ ok qs = h in
    let none_left : [] ≡ qs = cc in (0, ap (map row_of) (sym none_left))
known_pushes-rows c (p ∷ ps) {qs} h =
    let go : List Text → Result (List Push) = λ ns.
      if all_known c.resolve ns
      then (known_pushes c ps >>= λ (rs : List Push). ok (record p { nodes = ns } ∷ rs))
      else ok [] in
    let (ns, read, rest) = >>=-eq-ok (bins c.bin p.nodes) go h in
    elim (Bool-cases (all_known c.resolve ns)) [
      | inl known ↦
          let (rs, later, last) =
            >>=-eq-ok (known_pushes c ps) (λ (rs : List Push). ok (record p { nodes = ns } ∷ rs))
              (rw known at rest) in
          let (k, e) = known_pushes-rows c ps later in
          let same : record p { nodes = ns } ∷ rs ≡ qs = cc in
          (suc k, ap (map row_of) (sym same) ∙ ap (λ (ps : List PushRow). row_of p ∷ ps) e)
      | inr unknown ↦
          let stops : ok [] ≡ ok qs = rw unknown at rest in
          let same : [] ≡ qs = cc in (0, ap (map row_of) (sym same))
    ]

insert_push_as-rows :
    (p : PushRow) (db : Db) {db' : Db}
    → insert_push_as p db ≡ ok db'
    → db'.pushlog ≡ db.pushlog ++ p ∷ []
unfolding insert_push_as
insert_push_as-rows p db h = ground arith

recordpushes-rows :
    (resolve : Text → Option (ℕ × Text)) (ps : List Push) (db : Db) {db' : Db}
    → recordpushes resolve ps db ≡ ok db'
    → db'.pushlog ≡ db.pushlog ++ map row_of ps
unfolding recordpushes
recordpushes-rows resolve [] db {db'} h =
    let found : ok db ≡ ok db' = h in
    let same : db ≡ db' = cc in ap (λ (d : Db). d.pushlog) (sym same) ∙ sym (append-nil db.pushlog)
recordpushes-rows resolve (p ∷ ps) db {db'} h =
    let (db1, opened, rest) =
      >>=-eq-ok (insert_push_as (row_of p) db)
        (λ (d : Db).
          insert_nodes resolve p.pushid p.nodes d >>= λ (e : Db). recordpushes resolve ps e)
        h in
    let (db2, filled, last) =
      >>=-eq-ok (insert_nodes resolve p.pushid p.nodes db1) (λ (e : Db). recordpushes resolve ps e)
        rest in
    recordpushes-rows resolve ps db2 last
    ∙ ap (λ (rs : List PushRow). rs ++ map row_of ps)
        (insert_nodes-pushlog resolve p.pushid p.nodes db1 filled
          ∙ insert_push_as-rows (row_of p) db opened)
    ∙ append_assoc db.pushlog (row_of p ∷ []) (map row_of ps)

-- Under the conditions of a pull that is answered, where it raises nothing, the client's pushes are
-- those from before and then the first so many of the server's from the client's next number on,
-- with their numbers, users and times, and tables in order stay in order.
pub pull-mirrors :
    (c : Client) (db server : Db) (message : Error → Text) (r : Repo) (failures : List Text)
    {steps : List Text} {db' : Db}
    → any (text_eq (codes "pushlog")) c.stepsdone ≡ false
    → c.capable ≡ true
    → IsPushlog server
    → All IsPlain (served server (suc (lastpushid db)))
    → length failures ≤ 2
    → AllRefused (λ n. c.call n (decimal (suc (lastpushid db)))) 1 failures
    → c.call (1 + length failures) (decimal (suc (lastpushid db)))
      ≡ pushlogwireproto message r (decimal (suc (lastpushid db))) server
    → exchangepullpushlog c db ≡ ok (steps, db')
    → IsPushlog db
    → IsPushlog db'
      × ((k : ℕ) × (db'.pushlog
            ≡ db.pushlog ++ map row_of (take k (served server (suc (lastpushid db))))))
pull-mirrors c db server message r failures {steps} {db'} step can v plain few failed last done w =
    let ps = served server (suc (lastpushid db)) in
    let record_them : List Push → Result (List Text × Db) = λ qs.
      recordpushes c.resolve qs db >>= λ (e : Db). ok (c.stepsdone ++ codes "pushlog" ∷ [], e) in
    let (qs, known, recorded) = >>=-eq-ok (known_pushes c ps) record_them (
      sym (pull-replicates c db server message r failures step can v plain few failed last)
      ∙ done) in
    let (db1, written, ends) =
      >>=-eq-ok (recordpushes c.resolve qs db)
        (λ (e : Db). ok (c.stepsdone ++ codes "pushlog" ∷ [], e)) recorded in
    let pair : (c.stepsdone ++ codes "pushlog" ∷ [], db1) ≡ (steps, db') = cc in
    let same : db1 ≡ db' = ap (λ (x : List Text × Db). x.1) pair in
    let (k, rows) = known_pushes-rows c ps known in
    (
      subst IsPushlog same (recordpushes-IsPushlog c.resolve qs db written w),
      (
        k,
        ap (λ (d : Db). d.pushlog) (sym same)
            ∙ recordpushes-rows c.resolve qs db written
            ∙ ap (λ (rs : List PushRow). db.pushlog ++ rs) rows,
      ),
    )

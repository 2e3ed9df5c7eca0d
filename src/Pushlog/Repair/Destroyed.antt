-- ===== src/Pushlog/Repair/Destroyed.antt =====
-- What `handledestroyed` leaves of the changesets.
use version_control_tools_fx.Base.{
  ℕ, ◌≡◌, sym, ap, ◌∙◌, true, ◌&&◌, List, map, Option, Text, text_eq, any,
}
use version_control_tools_fx.Base.Result.{ok, >>=-eq-ok}
use version_control_tools_fx.Pushlog.Db.{ChangesetRow, Db}
use version_control_tools_fx.Pushlog.Lookup.{filter_rows}
use version_control_tools_fx.Pushlog.Db.Rows.{All-imp}
use version_control_tools_fx.Pushlog.Repair.{
  deletes, revupdates, delete_nodes, update_revs, handledestroyed,
}
use version_control_tools_fx.Pushlog.Record.{is_known}
use version_control_tools_fx.Pushlog.Repair.Deleted.{rows, deleted}
use version_control_tools_fx.Pushlog.Repair.Updated.{
  now, stale, touch, map-filter, touch-eq-now, stale-any, update_revs-touch, revupdates-Current,
}

module _ (resolve : Text → Option (ℕ × Text)) where
  -- The rows resolve of the changesets that are there, with their revisions.
  unfoldable pub surviving : List ChangesetRow → List ChangesetRow
  unfolding now filter_rows
  surviving cs = map (now resolve) (filter_rows (λ (c : ChangesetRow). is_known resolve c.node) cs)

  touched :
      (cs : List ChangesetRow)
      → map
          (touch resolve (revupdates resolve (rows resolve cs)))
          (delete_nodes (deletes resolve (rows resolve cs)) cs)
        ≡ surviving cs
  unfolding surviving
  touched cs =
      ap (map (touch resolve (revupdates resolve (rows resolve cs)))) (deleted resolve cs)
      ∙ map-filter resolve (touch resolve (revupdates resolve (rows resolve cs))) (now resolve)
          (λ (c : ChangesetRow). is_known resolve c.node) cs
          (All-imp
            (λ (c : ChangesetRow).
              stale resolve c ≡ true
              → any (λ (d : ChangesetRow). text_eq c.node d.node && stale resolve d) cs ≡ true)
            (λ (c : ChangesetRow).
              touch resolve (revupdates resolve (rows resolve cs)) c ≡ now resolve c)
            cs (touch-eq-now resolve cs) (stale-any resolve cs))

-- Where it raises nothing, `handledestroyed` leaves the rows of the changesets that are there, in
-- their order and with their revisions of now, and all pushes.
pub handledestroyed-surviving :
    (resolve : Text → Option (ℕ × Text)) (db : Db) {db' : Db}
    → handledestroyed resolve db ≡ ok db'
    → db' ≡ record db { changesets = surviving resolve db.changesets }
unfolding handledestroyed rows
handledestroyed-surviving resolve db {db'} h =
    let order = rows resolve db.changesets in
    let us = revupdates resolve order in
    let (cs, updated, same) =
      >>=-eq-ok (update_revs us (delete_nodes (deletes resolve order) db.changesets))
        (λ (cs : List ChangesetRow). ok (record db { changesets = cs })) h in
    let is : cs ≡ surviving resolve db.changesets =
      update_revs-touch resolve us _ (revupdates-Current resolve order) updated
      ∙ touched resolve db.changesets in
    let there : record db { changesets = cs } ≡ db' = cc in
    sym there ∙ ap (λ (ds : List ChangesetRow). record db { changesets = ds }) is

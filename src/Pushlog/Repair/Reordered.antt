-- ===== src/Pushlog/Repair/Reordered.antt =====
-- `handledestroyed` where the changesets keep their order: the updates meet no revision that
-- another row has.
use version_control_tools_fx.Base.{
  ℕ, ◌≡◌, refl, sym, ap, ◌∙◌, Bool, true, false, ◌&&◌, List, [], ◌∷◌, ◌++◌, append_assoc, map,
  Option, Text, text_eq, text_eq_iff, any, All, ◌==◌, arith, Bool-cases, Option-cases, inl, inr,
}
use mathlib.Core.Path.{subst}
use version_control_tools_fx.Base.Result.{ok}
use version_control_tools_fx.Pushlog.Db.{ChangesetRow, Db}
use version_control_tools_fx.Pushlog.Db.Rows.{All-imp, All-snoc}
use version_control_tools_fx.Pushlog.Lookup.{order_by}
use version_control_tools_fx.Pushlog.Query.Ordered.{any-order_by}
use version_control_tools_fx.Pushlog.Repair.{
  row_before, deletes, revupdates, delete_nodes, has_rev, set_rev, update_revs, handledestroyed,
}
use version_control_tools_fx.Pushlog.Record.{is_known}
use version_control_tools_fx.Pushlog.Repair.Deleted.{rows, deleted}
use version_control_tools_fx.Pushlog.Repair.Updated.{
  now, touch, Current, now-eq, touch-fresh, touch-none, now-gone,
}
use version_control_tools_fx.Pushlog.Repair.Destroyed.{surviving, handledestroyed-surviving}
use version_control_tools_fx.Pushlog.Repair.Clear.{
  Before, KeepOrder, Clear, known_rows, set-touch, touch-hit, touch-more, any-known, any-none,
  All-append, earlier_row-Clear, same_row-Clear, row_behind-Clear,
}

module _ (resolve : Text → Option (ℕ × Text)) where
  earlier_rows_pass :
      (us : List (Text × ℕ)) (t : ChangesetRow) (before todo : List ChangesetRow)
      → is_known resolve t.node ≡ true
      → All (λ (c : ChangesetRow). touch resolve us c ≡ now resolve c) before
      → All (λ (c : ChangesetRow). All (Before resolve c) (t ∷ todo)) before
      → All (Clear resolve us t) before
  earlier_rows_pass us t [] todo k h b = tt
  earlier_rows_pass us t (c ∷ cs) todo k h b =
      (earlier_row-Clear resolve us t c k h.0 b.0.0, earlier_rows_pass us t cs todo k h.1 b.1)

  rows_behind_pass :
      (us : List (Text × ℕ)) (t : ChangesetRow) (todo : List ChangesetRow)
      → is_known resolve t.node ≡ true
      → All (Before resolve t) todo
      → KeepOrder resolve todo
      → All (Clear resolve us t) todo
  rows_behind_pass us t [] k b o = tt
  rows_behind_pass us t (c ∷ cs) k b o =
      (row_behind-Clear resolve us t c k o.0 b.0, rows_behind_pass us t cs k b.1 o.2)

  no_clash :
      (before todo : List ChangesetRow) (t : ChangesetRow) (us : List (Text × ℕ))
      (cs : List ChangesetRow)
      → is_known resolve t.node ≡ true
      → ((p : ChangesetRow → Bool) → any p (before ++ t ∷ todo) ≡ any p cs)
      → All (λ (c : ChangesetRow). touch resolve us c ≡ now resolve c) before
      → All (λ (c : ChangesetRow). All (Before resolve c) (t ∷ todo)) before
      → KeepOrder resolve (t ∷ todo)
      → any (has_rev t.node (now resolve t).rev) (map (touch resolve us) (known_rows resolve cs))
        ≡ false
  no_clash before todo t us cs k same h b o =
      let clash : ChangesetRow → Bool =
        λ c. is_known resolve c.node && has_rev t.node (now resolve t).rev (touch resolve us c) in
      any-known resolve (has_rev t.node (now resolve t).rev) (touch resolve us) cs
      ∙ sym (same clash)
      ∙ any-none resolve clash (before ++ t ∷ todo) (
          All-append resolve (Clear resolve us t) before (t ∷ todo)
            (earlier_rows_pass us t before todo k h b)
            (same_row-Clear resolve us t, rows_behind_pass us t todo k o.1 o.2))

  set-touches :
      (u : Text × ℕ) (us : List (Text × ℕ)) (cs : List ChangesetRow)
      → Current resolve u
      → map (set_rev u.0 u.1) (map (touch resolve us) cs) ≡ map (touch resolve (u ∷ us)) cs
  set-touches u us [] h = refl
  set-touches u us (c ∷ cs) h = rw (set-touch resolve u us c h, set-touches u us cs h) refl

  -- The row at hand goes to those before it.
  later_rows :
      (before todo : List ChangesetRow) (t : ChangesetRow)
      → All (λ (c : ChangesetRow). All (Before resolve c) (t ∷ todo)) before
      → All (Before resolve t) todo
      → All (λ (c : ChangesetRow). All (Before resolve c) todo) (before ++ t ∷ [])
  later_rows before todo t b k =
      All-snoc (λ (c : ChangesetRow). All (Before resolve c) todo) before t
        (All-imp (λ (c : ChangesetRow). All (Before resolve c) (t ∷ todo))
          (λ (c : ChangesetRow). All (Before resolve c) todo) before (λ c x. x.1) b)
        k

  same_rows :
      (before todo : List ChangesetRow) (t : ChangesetRow) (cs : List ChangesetRow)
      → ((p : ChangesetRow → Bool) → any p (before ++ t ∷ todo) ≡ any p cs)
      → (p : ChangesetRow → Bool) → any p ((before ++ t ∷ []) ++ todo) ≡ any p cs
  same_rows before todo t cs same p = ap (any p) (append_assoc before (t ∷ []) todo) ∙ same p

  touched_rows :
      (before : List ChangesetRow) (t : ChangesetRow) (us : List (Text × ℕ)) (u : Text × ℕ)
      → text_eq t.node u.0 ≡ true
      → All (λ (c : ChangesetRow). touch resolve us c ≡ now resolve c) before
      → All (λ (c : ChangesetRow). touch resolve (u ∷ us) c ≡ now resolve c) (before ++ t ∷ [])
  touched_rows before t us u hit h =
      All-snoc (λ (c : ChangesetRow). touch resolve (u ∷ us) c ≡ now resolve c) before t
        (All-imp (λ (c : ChangesetRow). touch resolve us c ≡ now resolve c)
          (λ (c : ChangesetRow). touch resolve (u ∷ us) c ≡ now resolve c) before
          (touch-more resolve u us) h)
        (touch-hit resolve u us t hit)

  -- The updates of the rows that are left, behind those of the rows before them.
  updates-ok :
      (before todo : List ChangesetRow) (us : List (Text × ℕ)) (cs : List ChangesetRow)
      → ((p : ChangesetRow → Bool) → any p (before ++ todo) ≡ any p cs)
      → All (λ (c : ChangesetRow). touch resolve us c ≡ now resolve c) before
      → All (λ (c : ChangesetRow). All (Before resolve c) todo) before
      → KeepOrder resolve todo
      → (done : List ChangesetRow) × (update_revs
            (revupdates resolve todo)
            (map (touch resolve us) (known_rows resolve cs))
          ≡ ok done)
  unfolding update_revs revupdates
  updates-ok before [] us cs same h b k = (map (touch resolve us) (known_rows resolve cs), refl)
  updates-ok before (t ∷ todo) us cs same h b k =
      let later = later_rows before todo t b k.1 in
      let moved = same_rows before todo t cs same in
      let fresh : now resolve t ≡ t
          → All (λ (c : ChangesetRow). touch resolve us c ≡ now resolve c) (before ++ t ∷ []) =
        λ e.
          All-snoc (λ (c : ChangesetRow). touch resolve us c ≡ now resolve c) before t h
            (touch-fresh resolve us t e) in
      elim (Option-cases (resolve t.node)) [
        | inl gone ↦
            rw (revupdates, gone)
              (updates-ok (before ++ t ∷ []) todo us cs moved (fresh (now-gone resolve t gone))
                later k.2)
        | inr (ctx, there) ↦ elim (Bool-cases (ctx.0 == t.rev)) [
          | inl still ↦
              rw (revupdates, there, still)
                (updates-ok (before ++ t ∷ []) todo us cs moved
                  (fresh (
                    now-eq resolve t ctx there
                    ∙ ap (λ r. record t { rev = r }) (ground (arith, still))))
                  later k.2)
          | inr moves ↦
              let u : Text × ℕ = (t.node, ctx.0) in
              let current : Current resolve u = (ctx.1, there) in
              let known : is_known resolve t.node ≡ true = rw (is_known, there) refl in
              let rev : (now resolve t).rev ≡ ctx.0 =
                ap (λ (c : ChangesetRow). c.rev) (now-eq resolve t ctx there) in
              let free : any (has_rev t.node ctx.0) (map (touch resolve us) (known_rows resolve cs))
                  ≡ false =
                subst
                  (λ r.
                    any (has_rev t.node r) (map (touch resolve us) (known_rows resolve cs)) ≡ false)
                  rev (no_clash before todo t us cs known same h b k) in
              let touched = touched_rows before t us u ((text_eq_iff t.node t.node).1 refl) h in
              let (done, e) =
                updates-ok (before ++ t ∷ []) todo (u ∷ us) cs moved touched later k.2 in
              (
                done,
                rw
                    (
                      revupdates,
                      there,
                      moves,
                      update_revs,
                      free,
                      set-touches u us (known_rows resolve cs) current,
                    )
                    e,
              )
        ]
      ]

-- Where no revision has risen, and the changesets that are there keep their order under the order
-- of the pushes, `handledestroyed` raises nothing: it leaves the rows of these changesets, in their
-- order and with their revisions of now, and all pushes.
pub handledestroyed-KeepOrder :
    (resolve : Text → Option (ℕ × Text)) (db : Db)
    → KeepOrder resolve (order_by row_before db.changesets)
    → handledestroyed resolve db ≡ ok (record db { changesets = surviving resolve db.changesets })
unfolding handledestroyed rows
handledestroyed-KeepOrder resolve db k =
    let order = order_by row_before db.changesets in
    let (cs, updated) =
      updates-ok resolve [] order [] db.changesets (λ p. any-order_by row_before p db.changesets) tt
        tt k in
    let start : map (touch resolve []) (known_rows resolve db.changesets)
        ≡ delete_nodes (deletes resolve order) db.changesets =
      sym (touch-none resolve (known_rows resolve db.changesets))
      ∙ sym (deleted resolve db.changesets) in
    let done : update_revs (revupdates resolve order)
          (delete_nodes (deletes resolve order) db.changesets)
        ≡ ok cs =
      ap (update_revs (revupdates resolve order)) (sym start) ∙ updated in
    let ends : handledestroyed resolve db ≡ ok (record db { changesets = cs }) = rw done refl in
    ends ∙ ap ok (handledestroyed-surviving resolve db ends)

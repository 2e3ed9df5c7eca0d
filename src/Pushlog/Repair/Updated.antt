-- ===== src/Pushlog/Repair/Updated.antt =====
-- What the updates of `handledestroyed` make of the rows.
use version_control_tools_fx.Base.{
  ℕ, ◌≡◌, refl, sym, ap, ◌∙◌, Bool, true, false, not, ◌&&◌, List, [], ◌∷◌, map, Option, none, some,
  Text, text_eq, text_eq_iff, any, All, ◌==◌, arith, Bool-cases, Option-cases, inl, inr,
  if◌then◌else◌,
}
use version_control_tools_fx.Base.Result.{ok}
use version_control_tools_fx.Pushlog.Db.{ChangesetRow}
use version_control_tools_fx.Pushlog.Lookup.{filter_rows}
use version_control_tools_fx.Pushlog.Query.Ordered.{any-order_by}
use version_control_tools_fx.Pushlog.Db.Rows.{All-imp}
use version_control_tools_fx.Pushlog.Repair.{row_before, revupdates, has_rev, set_rev, update_revs}
use version_control_tools_fx.Pushlog.Repair.Deleted.{rows, self-any}

module _ (resolve : Text → Option (ℕ × Text)) where
  -- The row with the revision that the changeset has now.
  unfoldable pub now : ChangesetRow → ChangesetRow
  now c = elim (resolve c.node) [ none ↦ c | some ctx ↦ record c { rev = ctx.0 } ]

  -- A row whose changeset is there with another revision.
  unfoldable pub stale : ChangesetRow → Bool
  stale c = elim (resolve c.node) [ none ↦ false | some ctx ↦ not (ctx.0 == c.rev) ]

  any-revupdates :
      (t : Text) (cs : List ChangesetRow)
      → any (λ (u : Text × ℕ). text_eq t u.0) (revupdates resolve cs)
        ≡ any (λ (d : ChangesetRow). text_eq t d.node && stale d) cs
  unfolding revupdates stale
  any-revupdates t [] = refl
  any-revupdates t (c ∷ cs) = ground (arith, any-revupdates t cs)

  -- What the update of a node with its revision does to a row.
  unfoldable pub touch : List (Text × ℕ) → ChangesetRow → ChangesetRow
  touch us c = if any (λ (u : Text × ℕ). text_eq c.node u.0) us then now c else c

  abbrev pub Current : Text × ℕ → Type 0
  Current u = (ctx : Text) × (resolve u.0 ≡ some (u.1, ctx))

  pub revupdates-Current : (cs : List ChangesetRow) → All Current (revupdates resolve cs)
  unfolding revupdates
  revupdates-Current [] = tt
  revupdates-Current (c ∷ cs) = elim (Option-cases (resolve c.node)) [
    | inl gone ↦ rw (revupdates, gone) (revupdates-Current cs)
    | inr (ctx, there) ↦ elim (Bool-cases (ctx.0 == c.rev)) [
      | inl same ↦ rw (revupdates, there, same) (revupdates-Current cs)
      | inr other ↦ rw (revupdates, there, other) ((ctx.1, there), revupdates-Current cs)
    ]
  ]

  pub now-eq :
      (c : ChangesetRow) (ctx : ℕ × Text)
      → resolve c.node ≡ some ctx
      → now c ≡ record c { rev = ctx.0 }
  unfolding now
  now-eq c ctx h = rw (now, h) refl

  pub now-gone : (c : ChangesetRow) → resolve c.node ≡ none → now c ≡ c
  unfolding now
  now-gone c h = rw (now, h) refl

  pub now-now : (c : ChangesetRow) → now (now c) ≡ now c
  now-now c = elim (Option-cases (resolve c.node)) [
    | inl gone ↦ ap now (now-gone c gone)
    | inr (ctx, there) ↦
        ap now (now-eq c ctx there)
        ∙ now-eq (record c { rev = ctx.0 }) ctx there
        ∙ sym (now-eq c ctx there)
  ]

  pub now-node : (c : ChangesetRow) → (now c).node ≡ c.node
  now-node c = elim (Option-cases (resolve c.node)) [
    | inl gone ↦ ap (λ (d : ChangesetRow). d.node) (now-gone c gone)
    | inr (ctx, there) ↦ ap (λ (d : ChangesetRow). d.node) (now-eq c ctx there)
  ]

  pub touch-now : (us : List (Text × ℕ)) (c : ChangesetRow) → touch us (now c) ≡ now c
  unfolding touch
  touch-now us c = elim (Bool-cases (any (λ (u : Text × ℕ). text_eq (now c).node u.0) us)) [
    | inl hit ↦ rw (touch, hit) (now-now c)
    | inr miss ↦ rw (touch, miss) refl
  ]

  touch-step :
      (u : Text × ℕ) (us : List (Text × ℕ)) (c : ChangesetRow)
      → Current u
      → touch us (set_rev u.0 u.1 c) ≡ touch (u ∷ us) c
  unfolding touch
  touch-step u us c (ctx, there) = elim (Bool-cases (text_eq c.node u.0)) [
    | inl same ↦
        let found : resolve c.node ≡ some (u.1, ctx) =
          ap resolve ((text_eq_iff c.node u.0).0 same) ∙ there in
        let set : set_rev u.0 u.1 c ≡ now c = rw same (sym (now-eq c (u.1, ctx) found)) in
        let hit : touch (u ∷ us) c ≡ now c = rw (touch, same) refl in
        ap (touch us) set ∙ touch-now us c ∙ sym hit
    | inr other ↦
        let set : set_rev u.0 u.1 c ≡ c = rw other refl in
        let miss : touch (u ∷ us) c ≡ touch us c = rw (touch, other) refl in
        ap (touch us) set ∙ sym miss
  ]

  pub touch-none : (cs : List ChangesetRow) → cs ≡ map (touch []) cs
  unfolding touch
  touch-none [] = refl
  touch-none (c ∷ cs) = ap (λ (ds : List ChangesetRow). c ∷ ds) (touch-none cs)

  touch-steps :
      (u : Text × ℕ) (us : List (Text × ℕ)) (cs : List ChangesetRow)
      → Current u
      → map (touch us) (map (set_rev u.0 u.1) cs) ≡ map (touch (u ∷ us)) cs
  touch-steps u us [] h = refl
  touch-steps u us (c ∷ cs) h = rw (touch-step u us c h, touch-steps u us cs h) refl

  pub update_revs-touch :
      (us : List (Text × ℕ)) (cs : List ChangesetRow) {done : List ChangesetRow}
      → All Current us
      → update_revs us cs ≡ ok done
      → done ≡ map (touch us) cs
  unfolding update_revs
  update_revs-touch [] cs {done} h e =
      let found : ok cs ≡ ok done = e in let same : cs ≡ done = cc in sym same ∙ touch-none cs
  update_revs-touch (u ∷ us) cs h e = elim (Bool-cases (any (has_rev u.0 u.1) cs)) [
    | inl clash ↦ cc (rw (clash, update_revs) at e)
    | inr free ↦
        update_revs-touch us (map (set_rev u.0 u.1) cs) h.1 (rw (free, update_revs) at e)
        ∙ touch-steps u us cs h.0
  ]

  pub not_stale-now : (c : ChangesetRow) → stale c ≡ false → now c ≡ c
  unfolding stale
  not_stale-now c h = elim (Option-cases (resolve c.node)) [
    | inl gone ↦ now-gone c gone
    | inr (ctx, there) ↦
        let fresh : not (ctx.0 == c.rev) ≡ false = rw (there, stale) at h in
        let same : ctx.0 ≡ c.rev = ground (arith, fresh) in
        now-eq c ctx there ∙ ap (λ r. record c { rev = r }) same
  ]

  pub touch-fresh : (us : List (Text × ℕ)) (c : ChangesetRow) → now c ≡ c → touch us c ≡ now c
  unfolding touch
  touch-fresh us c h = elim (Bool-cases (any (λ (u : Text × ℕ). text_eq c.node u.0) us)) [
    | inl hit ↦ rw (touch, hit) refl
    | inr miss ↦ rw (touch, miss) (sym h)
  ]

  pub touch-eq-now :
      (cs : List ChangesetRow) (c : ChangesetRow)
      → (stale c ≡ true → any (λ (d : ChangesetRow). text_eq c.node d.node && stale d) cs ≡ true)
      → touch (revupdates resolve (rows resolve cs)) c ≡ now c
  unfolding touch rows
  touch-eq-now cs c h = elim (Bool-cases (stale c)) [
    | inl old ↦
        rw
          (
            touch,
            any-revupdates c.node (rows resolve cs),
            any-order_by row_before (λ (d : ChangesetRow). text_eq c.node d.node && stale d) cs,
            h old,
          )
          refl
    | inr fresh ↦ touch-fresh (revupdates resolve (rows resolve cs)) c (not_stale-now c fresh)
  ]

  pub map-filter :
      (f g : ChangesetRow → ChangesetRow) (p : ChangesetRow → Bool) (cs : List ChangesetRow)
      → All (λ (c : ChangesetRow). f c ≡ g c) cs
      → map f (filter_rows p cs) ≡ map g (filter_rows p cs)
  unfolding filter_rows
  map-filter f g p [] h = refl
  map-filter f g p (c ∷ cs) h = elim (Bool-cases (p c)) [
    | inl in_it ↦ rw (in_it, h.0, map-filter f g p cs h.1) refl
    | inr out ↦ rw out (map-filter f g p cs h.1)
  ]

  pub stale-any :
      (cs : List ChangesetRow)
      → All
          (λ (c : ChangesetRow).
            stale c ≡ true → any (λ (d : ChangesetRow). text_eq c.node d.node && stale d) cs ≡ true)
          cs
  stale-any cs =
      All-imp
        (λ (c : ChangesetRow).
          (text_eq c.node c.node && stale c) ≡ true
          → any (λ (d : ChangesetRow). text_eq c.node d.node && stale d) cs ≡ true)
        (λ (c : ChangesetRow).
          stale c ≡ true → any (λ (d : ChangesetRow). text_eq c.node d.node && stale d) cs ≡ true)
        cs (λ c f h. f (rw ((text_eq_iff c.node c.node).1 refl, h) refl))
        (self-any resolve (λ c d. text_eq c.node d.node && stale d) cs)

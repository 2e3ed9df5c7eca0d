-- ===== src/Pushlog/Repair/Deleted.antt =====
-- The rows that the deletions of `handledestroyed` leave.
use version_control_tools_fx.Base.{
  ℕ, ◌≡◌, refl, sym, ap, ◌∙◌, Bool, true, false, not, ◌&&◌, List, [], ◌∷◌, Option, Text, text_eq,
  text_eq_iff, any, All, arith, Bool-cases, inl, inr,
}
use version_control_tools_fx.Pushlog.Db.{ChangesetRow}
use version_control_tools_fx.Pushlog.Lookup.{order_by, filter_rows}
use version_control_tools_fx.Pushlog.Query.Ordered.{any-order_by}
use version_control_tools_fx.Pushlog.Db.Rows.{All-imp}
use version_control_tools_fx.Pushlog.Repair.{row_before, deletes, delete_nodes}
use version_control_tools_fx.Pushlog.Record.{is_known}

module _ (resolve : Text → Option (ℕ × Text)) where
  kept : List Text → ChangesetRow → Bool
  kept ns c = not (any (text_eq c.node) ns)

  filter_rows-again :
      (p q : ChangesetRow → Bool) (cs : List ChangesetRow)
      → filter_rows q (filter_rows p cs) ≡ filter_rows (λ (c : ChangesetRow). p c && q c) cs
  unfolding filter_rows
  filter_rows-again p q [] = refl
  filter_rows-again p q (c ∷ cs) = ground (arith, filter_rows-again p q cs)

  filter_rows-ext :
      (p q : ChangesetRow → Bool) (cs : List ChangesetRow)
      → All (λ (c : ChangesetRow). p c ≡ q c) cs
      → filter_rows p cs ≡ filter_rows q cs
  unfolding filter_rows
  filter_rows-ext p q [] h = refl
  filter_rows-ext p q (c ∷ cs) h = rw (h.0, filter_rows-ext p q cs h.1) refl

  filter_rows-all : (cs : List ChangesetRow) → filter_rows (kept []) cs ≡ cs
  unfolding filter_rows kept
  filter_rows-all [] = refl
  filter_rows-all (c ∷ cs) = ap (λ (ds : List ChangesetRow). c ∷ ds) (filter_rows-all cs)

  kept-step :
      (n : Text) (ns : List Text) (c : ChangesetRow)
      → (not (text_eq c.node n) && kept ns c) ≡ kept (n ∷ ns) c
  unfolding kept
  kept-step n ns c = ground arith

  delete_nodes-eq :
      (ns : List Text) (cs : List ChangesetRow) → delete_nodes ns cs ≡ filter_rows (kept ns) cs
  unfolding delete_nodes
  delete_nodes-eq [] cs = sym (filter_rows-all cs)
  delete_nodes-eq (n ∷ ns) cs =
      delete_nodes-eq ns (filter_rows (λ (c : ChangesetRow). not (text_eq c.node n)) cs)
      ∙ filter_rows-again (λ (c : ChangesetRow). not (text_eq c.node n)) (kept ns) cs
      ∙ ap (λ (p : ChangesetRow → Bool). filter_rows p cs) (λ i c. kept-step n ns c i)

  any-deletes :
      (t : Text) (cs : List ChangesetRow)
      → any (text_eq t) (deletes resolve cs)
        ≡ any (λ (d : ChangesetRow). text_eq t d.node && not (is_known resolve d.node)) cs
  unfolding deletes
  any-deletes t [] = refl
  any-deletes t (c ∷ cs) = ground (arith, any-deletes t cs)

  abbrev unknown : Text → ChangesetRow → Bool
  unknown t d = text_eq t d.node && not (is_known resolve d.node)

  unknown-none :
      (t : Text) (cs : List ChangesetRow) → is_known resolve t ≡ true → any (unknown t) cs ≡ false
  unknown-none t [] h = refl
  unknown-none t (d ∷ cs) h = elim (Bool-cases (text_eq t d.node)) [
    | inl same ↦
        let there : is_known resolve d.node ≡ true =
          ap (is_known resolve) (sym ((text_eq_iff t d.node).0 same)) ∙ h in
        rw (same, ap not there) (unknown-none t cs h)
    | inr other ↦ rw other (unknown-none t cs h)
  ]

  unfoldable pub rows : List ChangesetRow → List ChangesetRow
  rows cs = order_by row_before cs

  -- Rows that stand for themselves.
  pub self-any :
      (p : ChangesetRow → ChangesetRow → Bool) (cs : List ChangesetRow)
      → All (λ (c : ChangesetRow). p c c ≡ true → any (p c) cs ≡ true) cs
  self-any p [] = tt
  self-any p (c ∷ cs) = (
    λ h. rw h refl,
    All-imp (λ (d : ChangesetRow). p d d ≡ true → any (p d) cs ≡ true)
        (λ (d : ChangesetRow). p d d ≡ true → any (p d) (c ∷ cs) ≡ true) cs
        (λ d f h. ground (arith, f h)) (self-any p cs),
  )

  -- The rows that are kept are those of the changesets that are there.
  kept-known :
      (cs : List ChangesetRow) (c : ChangesetRow)
      → (unknown c.node c ≡ true → any (unknown c.node) cs ≡ true)
      → kept (deletes resolve (rows cs)) c ≡ is_known resolve c.node
  unfolding kept rows
  kept-known cs c h = elim (Bool-cases (is_known resolve c.node)) [
    | inl there ↦
        rw
          (
            kept,
            any-deletes c.node (rows cs),
            any-order_by row_before (unknown c.node) cs,
            unknown-none c.node cs there,
          )
          (sym there)
    | inr gone ↦
        rw
          (
            kept,
            any-deletes c.node (rows cs),
            any-order_by row_before (unknown c.node) cs,
            h (rw ((text_eq_iff c.node c.node).1 refl, gone) refl),
          )
          (sym gone)
  ]

  pub deleted :
      (cs : List ChangesetRow)
      → delete_nodes (deletes resolve (rows cs)) cs
        ≡ filter_rows (λ (c : ChangesetRow). is_known resolve c.node) cs
  deleted cs =
      delete_nodes-eq (deletes resolve (rows cs)) cs
      ∙ filter_rows-ext (kept (deletes resolve (rows cs)))
          (λ (c : ChangesetRow). is_known resolve c.node) cs
          (All-imp (λ (c : ChangesetRow). unknown c.node c ≡ true → any (unknown c.node) cs ≡ true)
            (λ (c : ChangesetRow). kept (deletes resolve (rows cs)) c ≡ is_known resolve c.node) cs
            (kept-known cs) (self-any (λ c. unknown c.node) cs))

-- ===== src/Pushlog/Repair/Clear.antt =====
-- Rows that an update of `handledestroyed` does not clash with.
use version_control_tools_fx.Base.{
  ℕ, ◌≤◌, ◌<◌, ◌≡◌, ◌≢◌, refl, sym, ap, ◌∙◌, Bool, true, false, not, ◌&&◌, List, [], ◌∷◌, ◌++◌, map,
  Option, some, Text, text_eq, text_eq_iff, any, All, ◌==◌, arith, Bool-cases, inl, inr, ◌⊎◌,
}
use version_control_tools_fx.Pushlog.Db.{ChangesetRow}
use version_control_tools_fx.Pushlog.Lookup.{filter_rows}
use version_control_tools_fx.Pushlog.Repair.{has_rev, set_rev}
use version_control_tools_fx.Pushlog.Record.{is_known}
use version_control_tools_fx.Pushlog.Repair.Updated.{now, touch, Current, now-eq, now-node}

module _ (resolve : Text → Option (ℕ × Text)) where
  -- Both changesets are there, and the first has the lower revision.
  abbrev pub Before : ChangesetRow → ChangesetRow → Type 0
  Before c d =
      is_known resolve c.node ≡ true
      → is_known resolve d.node ≡ true
      → (now resolve c).rev < (now resolve d).rev

  -- No revision has risen, and changesets that are there stand in the order of their revisions.
  abbrev pub KeepOrder : List ChangesetRow → Type 0
  KeepOrder [] = Unit
  KeepOrder (c ∷ cs) = ((now resolve c).rev ≤ c.rev) × All (Before c) cs × KeepOrder cs

  touch-cases :
      (us : List (Text × ℕ)) (c : ChangesetRow)
      → (touch resolve us c ≡ now resolve c) ⊎ (touch resolve us c ≡ c)
  unfolding touch
  touch-cases us c = elim (Bool-cases (any (λ (u : Text × ℕ). text_eq c.node u.0) us)) [
    | inl hit ↦ inl (rw (touch, hit) refl)
    | inr miss ↦ inr (rw (touch, miss) refl)
  ]

  touch-node : (us : List (Text × ℕ)) (c : ChangesetRow) → (touch resolve us c).node ≡ c.node
  touch-node us c = elim (touch-cases us c) [
    | inl e ↦ ap (λ (d : ChangesetRow). d.node) e ∙ now-node resolve c
    | inr e ↦ ap (λ (d : ChangesetRow). d.node) e
  ]

  set-same :
      (u : Text × ℕ) (d c : ChangesetRow)
      → Current resolve u
      → text_eq c.node u.0 ≡ true
      → (d ≡ now resolve c) ⊎ (d ≡ c)
      → set_rev u.0 u.1 d ≡ now resolve c
  set-same u d c (ctx, there) same h =
      let found : resolve c.node ≡ some (u.1, ctx) =
        ap resolve ((text_eq_iff c.node u.0).0 same) ∙ there in
      let is : now resolve c ≡ record c { rev = u.1 } = now-eq resolve c (u.1, ctx) found in
      let set : set_rev u.0 u.1 c ≡ record c { rev = u.1 } = rw same refl in
      let again : set_rev u.0 u.1 (record c { rev = u.1 }) ≡ record c { rev = u.1 } =
        rw same refl in
      elim h [
        | inl e ↦ ap (set_rev u.0 u.1) (e ∙ is) ∙ again ∙ sym is
        | inr e ↦ ap (set_rev u.0 u.1) e ∙ set ∙ sym is
      ]

  set-other : (u : Text × ℕ) (d : ChangesetRow) → text_eq d.node u.0 ≡ false → set_rev u.0 u.1 d ≡ d
  set-other u d h = rw h refl

  -- An update behind others.
  pub set-touch :
      (u : Text × ℕ) (us : List (Text × ℕ)) (c : ChangesetRow)
      → Current resolve u
      → set_rev u.0 u.1 (touch resolve us c) ≡ touch resolve (u ∷ us) c
  unfolding touch
  set-touch u us c h = elim (Bool-cases (text_eq c.node u.0)) [
    | inl same ↦
        let hit : touch resolve (u ∷ us) c ≡ now resolve c = rw (touch, same) refl in
        set-same u (touch resolve us c) c h same (touch-cases us c) ∙ sym hit
    | inr other ↦
        let miss : touch resolve (u ∷ us) c ≡ touch resolve us c = rw (touch, other) refl in
        set-other u (touch resolve us c)
          (ap (λ (t : Text). text_eq t u.0) (touch-node us c) ∙ other)
        ∙ sym miss
  ]

  pub touch-hit :
      (u : Text × ℕ) (us : List (Text × ℕ)) (c : ChangesetRow)
      → text_eq c.node u.0 ≡ true
      → touch resolve (u ∷ us) c ≡ now resolve c
  unfolding touch
  touch-hit u us c h = rw (touch, h) refl

  pub touch-more :
      (u : Text × ℕ) (us : List (Text × ℕ)) (c : ChangesetRow)
      → touch resolve us c ≡ now resolve c
      → touch resolve (u ∷ us) c ≡ now resolve c
  unfolding touch
  touch-more u us c h = elim (Bool-cases (text_eq c.node u.0)) [
    | inl same ↦ rw (touch, same) refl
    | inr other ↦ rw (touch, other) h
  ]

  pub any-known :
      (p : ChangesetRow → Bool) (f : ChangesetRow → ChangesetRow) (cs : List ChangesetRow)
      → any p (map f (filter_rows (λ (c : ChangesetRow). is_known resolve c.node) cs))
        ≡ any (λ (c : ChangesetRow). is_known resolve c.node && p (f c)) cs
  unfolding filter_rows
  any-known p f [] = refl
  any-known p f (c ∷ cs) = ground (arith, any-known p f cs)

  pub any-none :
      (p : ChangesetRow → Bool) (cs : List ChangesetRow)
      → All (λ (c : ChangesetRow). p c ≡ false) cs
      → any p cs ≡ false
  any-none p [] h = refl
  any-none p (c ∷ cs) h = rw h.0 (any-none p cs h.1)

  pub All-append :
      (P : ChangesetRow → Type 0) (xs ys : List ChangesetRow)
      → All P xs
      → All P ys
      → All P (xs ++ ys)
  All-append P [] ys h k = k
  All-append P (x ∷ xs) ys h k = (h.0, All-append P xs ys h.1 k)

  -- A row that clashes with no update of `t`.
  abbrev pub Clear : List (Text × ℕ) → ChangesetRow → ChangesetRow → Type 0
  Clear us t c =
      (is_known resolve c.node && has_rev t.node (now resolve t).rev (touch resolve us c)) ≡ false

  other_rev : (x y : Bool) (a b : ℕ) → (y ≡ true → a ≢ b) → (y && (x && a == b)) ≡ false
  other_rev x y a b h = ground (arith, h)

  pub earlier_row-Clear :
      (us : List (Text × ℕ)) (t c : ChangesetRow)
      → is_known resolve t.node ≡ true
      → touch resolve us c ≡ now resolve c
      → Before c t
      → Clear us t c
  earlier_row-Clear us t c k h b =
      other_rev (not (text_eq (touch resolve us c).node t.node)) (is_known resolve c.node)
        (touch resolve us c).rev (now resolve t).rev
        (λ there e. absurd (omega (arith, b there k, sym (ap (λ (d : ChangesetRow). d.rev) h) ∙ e)))

  pub same_row-Clear : (us : List (Text × ℕ)) (t : ChangesetRow) → Clear us t t
  same_row-Clear us t = rw (touch-node us t, (text_eq_iff t.node t.node).1 refl) (ground arith)

  pub row_behind-Clear :
      (us : List (Text × ℕ)) (t c : ChangesetRow)
      → is_known resolve t.node ≡ true
      → (now resolve c).rev ≤ c.rev
      → Before t c
      → Clear us t c
  row_behind-Clear us t c k h b =
      other_rev (not (text_eq (touch resolve us c).node t.node)) (is_known resolve c.node)
        (touch resolve us c).rev (now resolve t).rev
        (λ there e.
          let less = b k there in
          elim (touch-cases us c) [
            | inl now_there ↦
                absurd (omega (arith, less, sym (ap (λ (d : ChangesetRow). d.rev) now_there) ∙ e))
            | inr still ↦
                absurd (omega (arith, less, h, sym (ap (λ (d : ChangesetRow). d.rev) still) ∙ e))
          ])

  abbrev pub known_rows : List ChangesetRow → List ChangesetRow
  known_rows cs = filter_rows (λ (c : ChangesetRow). is_known resolve c.node) cs

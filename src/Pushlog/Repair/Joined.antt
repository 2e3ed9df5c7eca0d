-- ===== src/Pushlog/Repair/Joined.antt =====
-- The nodes of all pushes are those of the rows.
use version_control_tools_fx.Base.{
  ℕ, ◌≡◌, refl, ap, ◌∙◌, Bool, true, false, ◌&&◌, List, [], ◌∷◌, ◌++◌, map, Text, any, any-append,
  any-map, any-or, All, leb, ◌==◌, arith, Bool-cases, inl, inr,
}
use version_control_tools_fx.Base.Result.{ok}
use version_control_tools_fx.Pushlog.Db.{PushRow, ChangesetRow, Db, lastpushid}
use version_control_tools_fx.Pushlog.Db.Rows.{IsPushlog}
use version_control_tools_fx.Pushlog.Record.{Push}
use version_control_tools_fx.Pushlog.Lookup.{
  Repo, order_by, filter_rows, nodes_of, id_before, rev_before,
}
use version_control_tools_fx.Pushlog.Select.{
  all_pushes, window, inner, check_args, start_bound, end_bound, node_ids,
}
use version_control_tools_fx.Pushlog.Query.{pushes}
use version_control_tools_fx.Pushlog.Query.Ordered.{any-order_by}
use version_control_tools_fx.Pushlog.Query.Listing.{push_of, pushes-eq-inner}
use version_control_tools_fx.Pushlog.Wire.Pull.{served, open_window, filter_rows-from_id}

-- All pushes, by id.
pub pushes-all : (r : Repo) (db : Db) → IsPushlog db → pushes r all_pushes db ≡ ok (served db 0)
unfolding window inner check_args start_bound end_bound node_ids
pushes-all r db v =
    pushes-eq-inner r all_pushes db (open_window 0 (lastpushid db)) refl refl refl v
    ∙ ap
        (λ (ps : List PushRow).
          ok (map (push_of false db.changesets) (order_by (id_before false) ps)))
        (filter_rows-from_id 0 (lastpushid db) db.pushlog (omega arith))

abbrev pub nodes_in : List Push → List Text
nodes_in [] = []
nodes_in (p ∷ ps) = p.nodes ++ nodes_in ps

any-filter :
    {A : Type 0} (p keep : A → Bool) (xs : List A)
    → any p (filter_rows keep xs) ≡ any (λ x. keep x && p x) xs
unfolding filter_rows
any-filter p keep [] = refl
any-filter p keep (x ∷ xs) = ground (arith, any-filter p keep xs)

-- The nodes that are joined to a push.
any-nodes_of :
    (p : Text → Bool) (id : ℕ) (cs : List ChangesetRow)
    → any p (nodes_of false id cs) ≡ any (λ (c : ChangesetRow). c.pushid == id && p c.node) cs
unfolding nodes_of
any-nodes_of p id cs =
    any-map p (λ (c : ChangesetRow). c.node)
      (order_by (rev_before false) (filter_rows (λ (c : ChangesetRow). c.pushid == id) cs))
    ∙ any-order_by (rev_before false) (λ (c : ChangesetRow). p c.node)
        (filter_rows (λ (c : ChangesetRow). c.pushid == id) cs)
    ∙ any-filter (λ (c : ChangesetRow). p c.node) (λ (c : ChangesetRow). c.pushid == id) cs

any-nodes_in :
    (p : Text → Bool) (cs : List ChangesetRow) (qs : List PushRow)
    → any p (nodes_in (map (push_of false cs) qs))
      ≡ any (λ (q : PushRow). any (λ (c : ChangesetRow). c.pushid == q.id && p c.node) cs) qs
any-nodes_in p cs [] = refl
any-nodes_in p cs (q ∷ qs) =
    any-append p (nodes_of false q.id cs) (nodes_in (map (push_of false cs) qs))
    ∙ (rw (any-nodes_of p q.id cs, any-nodes_in p cs qs) refl)

any-weaker : (k : ℕ) (qs : List PushRow) → any (λ (q : PushRow). k == q.id && false) qs ≡ false
any-weaker k [] = refl
any-weaker k (q ∷ qs) = ground (arith, any-weaker k qs)

-- The push of a row is there.
any-owner :
    (b : Bool) (k : ℕ) (qs : List PushRow)
    → any (λ (q : PushRow). q.id == k) qs ≡ true
    → any (λ (q : PushRow). k == q.id && b) qs ≡ b
any-owner b k [] h = cc
any-owner false k (q ∷ qs) h = any-weaker k (q ∷ qs)
any-owner true k (q ∷ qs) h = elim (Bool-cases (q.id == k)) [
  | inl mine ↦ ground (arith, mine)
  | inr other ↦ ground (arith, other, any-owner true k qs (ground (arith, h, other)))
]

any-owned :
    (p : Text → Bool) (cs : List ChangesetRow) (qs : List PushRow)
    → All (λ (c : ChangesetRow). any (λ (q : PushRow). q.id == c.pushid) qs ≡ true) cs
    → any (λ (q : PushRow). any (λ (c : ChangesetRow). c.pushid == q.id && p c.node) cs) qs
      ≡ any (λ (c : ChangesetRow). p c.node) cs
any-owned p [] [] h = refl
any-owned p [] (q ∷ qs) h = any-owned p [] qs tt
any-owned p (c ∷ cs) qs h =
    any-or (λ (q : PushRow). c.pushid == q.id && p c.node)
      (λ (q : PushRow). any (λ (c : ChangesetRow). c.pushid == q.id && p c.node) cs) qs
    ∙ rw (any-owner (p c.node) c.pushid qs h.0, any-owned p cs qs h.1) refl

any-from_zero :
    (p : PushRow → Bool) (qs : List PushRow)
    → any p (filter_rows (λ (q : PushRow). leb 0 q.id) qs) ≡ any p qs
unfolding filter_rows
any-from_zero p [] = refl
any-from_zero p (q ∷ qs) = ground (arith, any-from_zero p qs)

-- The nodes of all pushes are those of the rows.
pub any-served :
    (p : Text → Bool) (db : Db)
    → IsPushlog db
    → any p (nodes_in (served db 0)) ≡ any (λ (c : ChangesetRow). p c.node) db.changesets
any-served p db v =
    let joined : PushRow → Bool =
      λ q. any (λ (c : ChangesetRow). c.pushid == q.id && p c.node) db.changesets in
    let from = filter_rows (λ (q : PushRow). leb 0 q.id) db.pushlog in
    any-nodes_in p db.changesets (order_by (id_before false) from)
    ∙ any-order_by (id_before false) joined from
    ∙ any-from_zero joined db.pushlog
    ∙ any-owned p db.changesets db.pushlog v.owned

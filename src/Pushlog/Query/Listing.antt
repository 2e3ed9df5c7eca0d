-- ===== src/Pushlog/Query/Listing.antt =====
-- What `pushes` yields.
use version_control_tools_fx.Base.{
  ℕ, ◌≡◌, refl, ap, ◌∙◌, Bool, true, false, List, [], ◌∷◌, ◌++◌, map, append-nil, append_assoc, any,
  Option, none, some, Text, ◌==◌, arith,
}
use version_control_tools_fx.Base.Result.{ok}
use version_control_tools_fx.Pushlog.Db.{PushRow, ChangesetRow, Db, same_id}
use version_control_tools_fx.Pushlog.Db.Rows.{Unique, IsPushlog}
use version_control_tools_fx.Pushlog.Record.{Push, unset}
use version_control_tools_fx.Pushlog.Lookup.{Repo, nodes_of}
use version_control_tools_fx.Pushlog.Select.{Args, Window, window, inner}
use version_control_tools_fx.Pushlog.Query.{
  JoinRow, join_row, rows_of, join_rows, on_branch, group, check_offset, pushes,
}
use version_control_tools_fx.Pushlog.Query.Ordered.{inner-Unique}

-- A push with its nodes in the order of the query.
abbrev pub push_of : Bool → List ChangesetRow → PushRow → Push
push_of reverse cs p = record {
  pushid = p.id;
  user = p.user;
  when = p.date;
  nodes = nodes_of reverse p.id cs;
}

abbrev push_with : PushRow → List Text → Push
push_with p ns = record { pushid = p.id; user = p.user; when = p.date; nodes = ns }

-- The later rows of a push go to its nodes.
group-same :
    (p : PushRow) (ns more : List Text) (rest : List JoinRow)
    → group (some (push_with p ns)) (map (λ (t : Text). join_row p (some t)) more ++ rest)
      ≡ group (some (push_with p (ns ++ more))) rest
unfolding group
group-same p ns [] rest = rw (append-nil ns) refl
group-same p ns (m ∷ more) rest =
    let same : (p.id == p.id) ≡ true = ground arith in
    rw same (
      group-same p (ns ++ m ∷ []) more rest
      ∙ ap (λ (t : List Text). group (some (push_with p t)) rest) (append_assoc ns (m ∷ []) more))

-- Neighbours have different ids, and the first is not `k`.
abbrev Chain : ℕ → List PushRow → Type 0
Chain k [] = Unit
Chain k (p ∷ ps) = ((p.id == k) ≡ false) × Chain p.id ps

-- The rows of a push, behind another push.
group-rows :
    (c : Push) (p : PushRow) (ns : List Text) (rest : List JoinRow)
    → (p.id == c.pushid) ≡ false
    → group (some c) (rows_of p ns ++ rest) ≡ c ∷ group (some (push_with p ns)) rest
unfolding group
group-rows c p [] rest h = rw h refl
group-rows c p (n ∷ ns) rest h =
    rw h (ap (λ (qs : List Push). c ∷ qs) (group-same p (n ∷ []) ns rest))

group-join :
    (reverse : Bool) (cs : List ChangesetRow) (c : Push) (ps : List PushRow)
    → Chain c.pushid ps
    → group (some c) (join_rows reverse ps cs) ≡ c ∷ map (push_of reverse cs) ps
unfolding group join_rows
group-join reverse cs c [] h = refl
group-join reverse cs c (p ∷ ps) h =
    group-rows c p (nodes_of reverse p.id cs) (join_rows reverse ps cs) h.0
    ∙ ap (λ (qs : List Push). c ∷ qs) (group-join reverse cs (push_of reverse cs p) ps h.1)

-- The first row of a push opens it.
group-first :
    (p : PushRow) (ns : List Text) (rest : List JoinRow)
    → group none (rows_of p ns ++ rest) ≡ group (some (push_with p ns)) rest
unfolding group
group-first p [] rest = refl
group-first p (n ∷ ns) rest = group-same p (n ∷ []) ns rest

Unique-Chain :
    (k : PushRow) (ps : List PushRow)
    → any (same_id k) ps ≡ false
    → Unique same_id ps
    → Chain k.id ps
Unique-Chain k [] h u = tt
Unique-Chain k (p ∷ ps) h u = (ground (arith, h), Unique-Chain p ps u.0 u.1)

group-Unique :
    (reverse : Bool) (cs : List ChangesetRow) (ps : List PushRow)
    → Unique same_id ps
    → group none (join_rows reverse ps cs) ≡ map (push_of reverse cs) ps
unfolding join_rows group
group-Unique reverse cs [] u = refl
group-Unique reverse cs (p ∷ ps) u =
    group-first p (nodes_of reverse p.id cs) (join_rows reverse ps cs)
    ∙ group-join reverse cs (push_of reverse cs p) ps (Unique-Chain p ps u.0 u.1)

on_branch-unset :
    (r : Repo) (b : Option Text) (rows : List JoinRow)
    → unset b ≡ true
    → on_branch r b rows ≡ ok rows
unfolding on_branch
on_branch-unset r none rows h = refl
on_branch-unset r (some []) rows h = refl
on_branch-unset r (some (c ∷ cs)) rows h = cc

-- On tables in order and without a branch, `pushes` yields one push for each row of the inner
-- query, in its order, with all nodes of the push.
pub pushes-eq-inner :
    (r : Repo) (a : Args) (db : Db) (w : Window)
    → window r a db ≡ ok w
    → check_offset a ≡ ok tt
    → unset a.branch ≡ true
    → IsPushlog db
    → pushes r a db ≡ ok (map (push_of a.reverse db.changesets) (inner a w db))
unfolding pushes
pushes-eq-inner r a db w bounds limit all v =
    rw
      (
        bounds,
        limit,
        on_branch-unset r a.branch (join_rows a.reverse (inner a w db) db.changesets) all,
      )
      (ap ok (group-Unique a.reverse db.changesets (inner a w db) (inner-Unique a w db v.ids)))

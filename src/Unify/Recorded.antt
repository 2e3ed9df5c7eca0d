-- ===== src/Unify/Recorded.antt =====
-- What `unifyrepo` does to the pushlog of the destination.
use version_control_tools_fx.Base.{
  ℕ, ◌≡◌, refl, sym, ap, ◌∙◌, Bool, true, false, ◌||◌, List, [], ◌∷◌, ◌++◌, some, Text, text_eq,
  text_eq_iff, any, All, arith, inl, inr, Bool-cases,
}
use version_control_tools_fx.Base.Result.{Result, ok, ◌>>=◌}
use version_control_tools_fx.Hooks.Roots.{member, difference}
use version_control_tools_fx.Pushlog.Db.{ChangesetRow, Db, lastpushid}
use version_control_tools_fx.Pushlog.Db.Rows.{Unique, IsPushlog}
use version_control_tools_fx.Pushlog.Record.{Push, recordpushes}
use version_control_tools_fx.Pushlog.Record.Invariant.{recordpushes-IsPushlog}
use version_control_tools_fx.Pushlog.Lookup.{Repo}
use version_control_tools_fx.Pushlog.Wire.Pull.{served}
use version_control_tools_fx.Pushlog.Repair.Joined.{pushes-all, nodes_in, any-served}
use version_control_tools_fx.Unify.Collect.{position, resolve}
use version_control_tools_fx.Unify.Pushes.{UnifiedPush, push_nodes, new_from, newpushes}
use version_control_tools_fx.Unify.Ready.{in_db, unified_nodes, member-append, new_from-Ready}

member-any : (n : Text) (xs : List Text) → member n xs ≡ any (text_eq n) xs
unfolding member
member-any n [] = refl
member-any n (x ∷ xs) = ap (λ b. text_eq n x || b) (member-any n xs)

push_nodes-nodes_in : (ps : List Push) → push_nodes ps ≡ nodes_in ps
unfolding push_nodes
push_nodes-nodes_in [] = refl
push_nodes-nodes_in (p ∷ ps) = ap (λ ns. p.nodes ++ ns) (push_nodes-nodes_in ps)

-- `destpushnodes` has the nodes that are recorded.
known-in_db : (n : Text) (db : Db) → IsPushlog db → member n (push_nodes (served db 0)) ≡ in_db n db
known-in_db n db v =
    member-any n (push_nodes (served db 0))
    ∙ ap (any (text_eq n)) (push_nodes-nodes_in (served db 0))
    ∙ any-served (text_eq n) db v

newpushes-new_from :
    (r : Repo) (us : List UnifiedPush) (db : Db)
    → IsPushlog db
    → newpushes r us db ≡ ok (new_from (push_nodes (served db 0)) (lastpushid db) us)
unfolding newpushes
newpushes-new_from r us db v =
    ap (λ (o : Result (List Push)). o >>= λ ps. ok (new_from (push_nodes ps) (lastpushid db) us))
      (pushes-all r db v)

module _ (log known : List Text) (db : Db) (same : (n : Text) → member n known ≡ in_db n db) where
  difference-fresh : (ns : List Text) → All (λ n. in_db n db ≡ false) (difference ns known)
  unfolding difference
  difference-fresh [] = tt
  difference-fresh (n ∷ ns) = elim (Bool-cases (member n known)) [
    | inl there ↦ rw (difference, there) (difference-fresh ns)
    | inr missing ↦ rw (difference, missing) (sym (same n) ∙ missing, difference-fresh ns)
  ]

any-difference :
    (p : Text → Bool) (ns known : List Text)
    → any p ns ≡ false
    → any p (difference ns known) ≡ false
unfolding difference
any-difference p [] known h = refl
any-difference p (n ∷ ns) known h = ground (arith, h, any-difference p ns known)

difference-Unique :
    (ns known : List Text) → Unique text_eq ns → Unique text_eq (difference ns known)
unfolding difference
difference-Unique [] known u = tt
difference-Unique (n ∷ ns) known u = elim (Bool-cases (member n known)) [
  | inl there ↦ rw (difference, there) (difference-Unique ns known u.1)
  | inr missing ↦
      rw (difference, missing)
        (any-difference (text_eq n) ns known u.0, difference-Unique ns known u.1)
]

difference-All : (P : Text → Type 0) (ns known : List Text) → All P ns → All P (difference ns known)
unfolding difference
difference-All P [] known a = tt
difference-All P (n ∷ ns) known a = elim (Bool-cases (member n known)) [
  | inl there ↦ rw (difference, there) (difference-All P ns known a.1)
  | inr missing ↦ rw (difference, missing) (a.0, difference-All P ns known a.1)
]

-- A node is missing or known.
member-difference :
    (n : Text) (ns known : List Text)
    → (member n known || member n (difference ns known)) ≡ (member n known || member n ns)
unfolding difference member
member-difference n [] known = refl
member-difference n (m ∷ ns) known = ground (arith, member-difference n ns known, text_eq_iff n m)

-- Where all is known nothing is new.
new_from-known :
    (known : List Text) (last : ℕ) (us : List UnifiedPush)
    → ((n : Text) → member n (unified_nodes us) ≡ true → member n known ≡ true)
    → new_from known last us ≡ []
unfolding new_from difference member
new_from-known known last [] h = refl
new_from-known known last (u ∷ us) h =
    let none_missing : difference u.nodes known ≡ [] =
      all_known u.nodes
        (λ n t. h n (ground (arith, t, member-append n u.nodes (unified_nodes us)))) in
    rw (new_from, none_missing)
      (new_from-known known last us
        (λ n t. h n (ground (arith, t, member-append n u.nodes (unified_nodes us)))))
  where
    all_known :
        (ns : List Text)
        → ((n : Text) → member n ns ≡ true → member n known ≡ true)
        → difference ns known ≡ []
    all_known [] h = refl
    all_known (n ∷ ns) h =
        rw (difference, h n (ground (arith, text_eq_iff n n)))
          (all_known ns (λ m t. h m (ground (arith, t))))

-- Where the pushlog is in order and says of each changeset the revision that it has, and the nodes
-- of the unified pushes are in the repository and each in one of them, the new pushes are recorded
-- without a clash: the pushlog stays in order, its nodes are then those it had and those of the
-- unified pushes, and a second run finds nothing new.
pub newpushes-recordpushes :
    (r : Repo) (log : List Text) (us : List UnifiedPush) (db : Db)
    → IsPushlog db
    → All (λ (c : ChangesetRow). position c.node log ≡ some c.rev) db.changesets
    → All (λ n. (rev : ℕ) × (position n log ≡ some rev)) (unified_nodes us)
    → Unique text_eq (unified_nodes us)
    → (db' : Db) × ((newpushes r us db >>= λ ps. recordpushes (resolve log) ps db) ≡ ok db')
      × IsPushlog db'
      × ((n : Text) → in_db n db' ≡ (in_db n db || member n (unified_nodes us)))
      × (newpushes r us db' ≡ ok [])
newpushes-recordpushes r log us db v agree there distinct =
    let known = push_nodes (served db 0) in
    let same : (n : Text) → member n known ≡ in_db n db = λ n. known-in_db n db v in
    let nodes = unified_nodes us in
    let (db', done, recorded) =
      new_from-Ready log known (lastpushid db) us db
        (record {
          fresh = difference-fresh log known db same nodes;
          distinct = difference-Unique nodes known distinct;
          there = difference-All _ nodes known there;
          agree = agree;
        })
        (omega arith) in
    let v' = recordpushes-IsPushlog (resolve log) (new_from known (lastpushid db) us) db done v in
    let all_there : (n : Text) → in_db n db' ≡ (in_db n db || member n nodes) =
      λ n. ground (arith, recorded n, member-difference n nodes known, same n) in
    (
      db',
      rw (newpushes-new_from r us db v) done,
      v',
      all_there,
      newpushes-new_from r us db' v'
          ∙ ap ok (
              new_from-known (push_nodes (served db' 0)) (lastpushid db') us
                (λ n t. ground (arith, known-in_db n db' v', all_there n, t))),
    )

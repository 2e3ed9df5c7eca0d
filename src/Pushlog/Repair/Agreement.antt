-- ===== src/Pushlog/Repair/Agreement.antt =====
-- What `verify` answers.
use version_control_tools_fx.Base.{
  ℕ, ◌+◌, ◌≡◌, refl, sym, ap, ◌∙◌, Bool, true, false, not, ◌||◌, List, [], ◌∷◌, ◌++◌, append_assoc,
  append-nil, Option, Text, text_eq, any, any-append, Bool-cases, inl, inr, if◌then◌else◌,
}
use version_control_tools_fx.Base.Result.{Result, ok, ◌>>=◌}
use version_control_tools_fx.Pushlog.Db.{ChangesetRow, Db}
use version_control_tools_fx.Pushlog.Db.Rows.{IsPushlog}
use version_control_tools_fx.Pushlog.Record.{Push}
use version_control_tools_fx.Pushlog.Lookup.{Repo}
use version_control_tools_fx.Pushlog.Wire.Pull.{served}
use version_control_tools_fx.Pushlog.Repair.{
  Verified, warn, see, verify_nodes, verify_push, verify_pushes, verify_revs, verify,
  does_not_exist, not_in_pushlog,
}
use version_control_tools_fx.Pushlog.Record.{is_known}
use version_control_tools_fx.Pushlog.Repair.Joined.{pushes-all, nodes_in, any-served}

-- What the loops make of `ret` and `seennodes`.
abbrev raised : Bool → ℕ → ℕ
raised b n = if b then 1 else n

raised_one : (b : Bool) → raised b 1 ≡ 1
raised_one true = refl
raised_one false = refl

raised_or : (a b : Bool) (n : ℕ) → raised b (raised a n) ≡ raised (a || b) n
raised_or true b n = raised_one b
raised_or false b n = refl

verify_nodes-eq :
    (resolve : Text → Option (ℕ × Text)) (id : ℕ) (ns : List Text) (v : Verified)
    → ((verify_nodes resolve id ns v).ret ≡ raised (any (λ n. not (is_known resolve n)) ns) v.ret)
      × ((verify_nodes resolve id ns v).seennodes ≡ v.seennodes ++ ns)
unfolding verify_nodes
verify_nodes-eq resolve id [] v = (refl, sym (append-nil v.seennodes))
verify_nodes-eq resolve id (n ∷ ns) v = elim (Bool-cases (is_known resolve n)) [
  | inl known ↦
      let (ret, seen) = verify_nodes-eq resolve id ns (see n v) in
      rw (verify_nodes, known) (ret, seen ∙ append_assoc v.seennodes (n ∷ []) ns)
  | inr unknown ↦
      let (ret, seen) = verify_nodes-eq resolve id ns (see n (warn (does_not_exist id n) v)) in
      rw (verify_nodes, unknown)
        (
          ret ∙ raised_one (any (λ n. not (is_known resolve n)) ns),
          seen ∙ append_assoc v.seennodes (n ∷ []) ns,
        )
]

verify_push-eq :
    (resolve : Text → Option (ℕ × Text)) (p : Push) (v : Verified)
    → ((verify_push resolve p v).ret ≡ raised (any (λ n. not (is_known resolve n)) p.nodes) v.ret)
      × ((verify_push resolve p v).seennodes ≡ v.seennodes ++ p.nodes)
verify_push-eq resolve p v = go p.nodes refl
  where
    go :
        (ns : List Text)
        → p.nodes ≡ ns
        → ((verify_push resolve p v).ret ≡ raised (any (λ n. not (is_known resolve n)) ns) v.ret)
          × ((verify_push resolve p v).seennodes ≡ v.seennodes ++ ns)
    go [] e = rw (verify_push, e) (refl, sym (append-nil v.seennodes))
    go (n ∷ ns) e = rw (verify_push, e) (verify_nodes-eq resolve p.pushid (n ∷ ns) v)

verify_pushes-eq :
    (resolve : Text → Option (ℕ × Text)) (ps : List Push) (v : Verified)
    → ((verify_pushes resolve ps v).ret
        ≡ raised (any (λ n. not (is_known resolve n)) (nodes_in ps)) v.ret)
      × ((verify_pushes resolve ps v).seennodes ≡ v.seennodes ++ nodes_in ps)
unfolding verify_pushes
verify_pushes-eq resolve [] v = (refl, sym (append-nil v.seennodes))
verify_pushes-eq resolve (p ∷ ps) v =
    let counted = record v { pushcount = v.pushcount + 1 } in
    let (ret, seen) = verify_push-eq resolve p counted in
    let (rets, seens) = verify_pushes-eq resolve ps (verify_push resolve p counted) in
    let unknown : Text → Bool = λ n. not (is_known resolve n) in
    (
      rets
          ∙ ap (raised (any unknown (nodes_in ps))) ret
          ∙ raised_or (any unknown p.nodes) (any unknown (nodes_in ps)) v.ret
          ∙ ap (λ b. raised b v.ret) (sym (any-append unknown p.nodes (nodes_in ps))),
      seens
          ∙ ap (λ (ns : List Text). ns ++ nodes_in ps) seen
          ∙ append_assoc v.seennodes p.nodes (nodes_in ps),
    )

verify_revs-ret :
    (revs : List Text) (v : Verified)
    → (verify_revs revs v).ret ≡ raised (any (λ n. not (any (text_eq n) v.seennodes)) revs) v.ret
unfolding verify_revs
verify_revs-ret [] v = refl
verify_revs-ret (n ∷ ns) v = elim (Bool-cases (any (text_eq n) v.seennodes)) [
  | inl seen ↦ rw (verify_revs, seen) (verify_revs-ret ns v)
  | inr unseen ↦
      rw (verify_revs, unseen) (verify_revs-ret ns (warn (not_in_pushlog n) v) ∙ raised_one _)
]

-- On tables in order `verify` answers 1 exactly where a changeset of the tables is not in the
-- repository or a changeset of the repository is not in the tables, and 0 otherwise.
pub verify-eq :
    (resolve : Text → Option (ℕ × Text)) (revs : List Text) (r : Repo) (db : Db)
    → IsPushlog db
    → (v : Verified) × (verify resolve revs r db ≡ ok v)
      × (v.ret ≡ (
          if any (λ (c : ChangesetRow). not (is_known resolve c.node)) db.changesets
            || any (λ n. not (any (λ (c : ChangesetRow). text_eq n c.node) db.changesets)) revs
          then 1
          else 0))
unfolding verify
verify-eq resolve revs r db h =
    let start : Verified = record { ret = 0; seennodes = []; pushcount = 0; warnings = [] } in
    let ps = served db 0 in
    let after = verify_pushes resolve ps start in
    let (ret, seen) = verify_pushes-eq resolve ps start in
    (
      verify_revs revs after,
      (ap
          (λ (o : Result (List Push)).
            o >>= λ ps. ok (verify_revs revs (verify_pushes resolve ps start)))
          (pushes-all r db h)),
      (verify_revs-ret revs after
          ∙ ap (λ (f : Text → Bool). raised (any (λ n. not (f n)) revs) after.ret)
              (λ i n. (ap (any (text_eq n)) seen ∙ any-served (text_eq n) db h) i)
          ∙ ap
              (raised
                (any (λ n. not (any (λ (c : ChangesetRow). text_eq n c.node) db.changesets)) revs))
              (ret ∙ ap (λ b. raised b 0) (any-served (λ n. not (is_known resolve n)) db h))
          ∙ raised_or (any (λ (c : ChangesetRow). not (is_known resolve c.node)) db.changesets) _
              0),
    )

-- ===== src/Pushlog/Query/Refused.antt =====
-- A node that the repository has and no push holds, as a bound of `pushes`.
use version_control_tools_fx.Base.{ℕ, ◌≡◌, refl, ap, Bool, Option, none, some, Text}
use version_control_tools_fx.Base.Result.{Result, ok, err, attribute_error}
use version_control_tools_fx.Pushlog.Db.{Db}
use version_control_tools_fx.Pushlog.Lookup.{Repo, pushfromnode}
use version_control_tools_fx.Pushlog.Select.{Args, check_args, start_bound, end_bound, window}
use version_control_tools_fx.Pushlog.Query.{pushes}

push_bound : Args → Option ℕ → Result (Option ℕ × Bool)
push_bound a o = elim o [
  | none ↦ err attribute_error
  | some id ↦ ok (some id, a.end_node_exclusive)
]

end_bound-Unpushed :
    (r : Repo) (a : Args) (db : Db) (n node : Text)
    → a.end_node ≡ some n
    → r.lookup n ≡ ok node
    → pushfromnode node db ≡ none
    → end_bound r a db ≡ err attribute_error
unfolding end_bound push_bound
end_bound-Unpushed r a db n node e l p =
    rw (end_bound, e, l) (ap (λ (o : Option ℕ). push_bound a o) p)

-- As the last node, a node that the repository has and no push holds makes `pushes` raise
-- AttributeError, where the arguments are consistent and the first node, if there is one, is known.
pushes-end_node-Unpushed :
    (r : Repo) (a : Args) (db : Db) (n node : Text) {start : ℕ × Bool}
    → a.end_node ≡ some n
    → r.lookup n ≡ ok node
    → pushfromnode node db ≡ none
    → check_args r a ≡ ok tt
    → start_bound r a db ≡ ok start
    → pushes r a db ≡ err attribute_error
unfolding pushes window
pushes-end_node-Unpushed r a db n node e l p c s =
    rw (c, s, end_bound-Unpushed r a db n node e l p) refl

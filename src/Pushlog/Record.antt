-- ===== src/Pushlog/Record.antt =====
-- `recordpush`, `recordpushes` and `pretxnchangegrouphook`. `repo[e]` is the argument `resolve`: it
-- answers the revision and the node in hex of a changeset, or none where it is not known.
pub mod Invariant
use version_control_tools_fx.Base.{
  ℕ, Bool, true, false, not, ◌&&◌, ◌||◌, List, [], ◌∷◌, ◌++◌, Option, none, some, Text, codes,
  text_eq, any, if◌then◌else◌,
}
use version_control_tools_fx.Base.Result.{Result, ok, err, other_error, require, ◌>>=◌}
use version_control_tools_fx.Pushlog.Db.{
  PushRow, ChangesetRow, Db, insert_push, insert_push_as, insert_changeset,
}

-- `Push`
pub record Push : Type 0 where
  pub pushid : ℕ
  pub user : Text
  pub when : ℕ
  pub nodes : List Text

-- `repo[node]` raises nothing.
abbrev pub is_known : (Text → Option (ℕ × Text)) → Text → Bool
is_known resolve node = elim (resolve node) [ none ↦ false | some c ↦ true ]

-- The loop over the nodes of a push.
unfoldable pub insert_nodes : {N : Type 0} → (N → Option (ℕ × Text)) → ℕ → List N → Db → Result Db
unfolding insert_changeset
insert_nodes resolve pushid [] db = ok db
insert_nodes resolve pushid (e ∷ es) db = do
  (rev, node) ← require other_error (resolve e)
  db' ← insert_changeset (record { pushid = pushid; rev = rev; node = node }) db
  insert_nodes resolve pushid es db'

-- `recordpush`; where it raises, the transaction is rolled back
unfoldable pub recordpush :
    {N : Type 0} → (N → Option (ℕ × Text)) → List N → Text → ℕ → Db → Result Db
unfolding insert_push insert_nodes
recordpush resolve nodes user when db =
    let (pushid, db') = insert_push user when db in insert_nodes resolve pushid nodes db'

-- `recordpushes`, for pushes whose nodes are in hex
unfoldable pub recordpushes : (Text → Option (ℕ × Text)) → List Push → Db → Result Db
unfolding insert_push_as insert_nodes
recordpushes resolve [] db = ok db
recordpushes resolve (p ∷ ps) db = do
  db' ← insert_push_as (record { id = p.pushid; user = p.user; date = p.when }) db
  db'' ← insert_nodes resolve p.pushid p.nodes db'
  recordpushes resolve ps db''

-- The environment and the configuration that the hook reads; the landing users are those of the
-- configuration or the defaults.
pub record HookConfig : Type 0 where
  pub remote_user : Option Text
  pub user : Option Text
  pub autoland_request_user : Option Text
  pub landing_users : List Text
  pub remoteuserprefix : Option Text
  pub userprefix : Option Text

-- `not t`, where `t` may be `None`
abbrev pub unset : Option Text → Bool
unset none = true
unset (some []) = true
unset (some (c ∷ cs)) = false

-- `b"%s:%s" % (prefix, user)`, where both are set
abbrev pub prefixed : Option Text → Option Text → Option Text
prefixed (some (p ∷ ps)) (some (c ∷ cs)) = some ((p ∷ ps) ++ (b':' ∷ (c ∷ cs)))
prefixed prefix user = user

abbrev pub or_else : Option Text → Option Text → Option Text
or_else a b = if unset a then b else a

-- `user in landing_users`
abbrev pub is_landing : Option Text → List Text → Bool
is_landing none users = false
is_landing (some u) users = any (text_eq u) users

-- The user after the test for landing users.
abbrev pub initiator : HookConfig → Option Text
initiator c =
    if is_landing c.user c.landing_users
    then elim c.autoland_request_user [ some u ↦ some u | none ↦ c.user ]
    else c.user

-- `AUTOLAND_REQUEST_USER` comes as a str, which `b"%s:%s"` does not take.
abbrev pub is_str_formatted : HookConfig → Bool
is_str_formatted c =
    is_landing c.user c.landing_users
    && not (unset c.autoland_request_user)
    && not (unset c.userprefix)

-- `pushuser`
unfoldable pub push_user : HookConfig → Option Text
push_user c =
    or_else (prefixed c.remoteuserprefix c.remote_user) (prefixed c.userprefix (initiator c))

-- The hook's answer, and the pushlog: unchanged where it refuses, since the transaction aborts. A
-- `TypeError` of the hook aborts it like an answer other than 0, and stands as 1.
abbrev pub answer : Db → Result Db → ℕ × Db
answer db (ok db') = (0, db')
answer db (err e) = (1, db)

abbrev pub text_or_empty : Option Text → Text
text_or_empty none = []
text_or_empty (some t) = t

-- `pretxnchangegrouphook`, at the time `now` and for the revisions from that of `node` on
unfoldable pub pretxnchangegrouphook :
    (ℕ → Option (ℕ × Text)) → Text → HookConfig → ℕ → List ℕ → Db → ℕ × Db
unfolding recordpush push_user
pretxnchangegrouphook resolve source c now revs db =
    if not (text_eq source (codes "push") || text_eq source (codes "serve"))
    then (0, db)
    else if unset c.remote_user && unset c.user
    then (1, db)
    else if is_str_formatted c
    then (1, db)
    else answer db (recordpush resolve revs (text_or_empty (push_user c)) now db)

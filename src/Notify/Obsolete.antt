-- ===== src/Notify/Obsolete.antt =====
-- pushnotifications.py: `_get_obsolete_pushkey_message`, on what the commands print.
use version_control_tools_fx.Base.{
  ℕ, ◌==◌, Bool, true, false, not, List, [], ◌∷◌, Option, none, some, Text, codes, text_eq, strip,
  split_on, contains, lookup, length, if◌then◌else◌,
}
use version_control_tools_fx.Base.Result.{
  Result, ok, err, key_error, index_error, other_error, command_error, require, ◌>>=◌,
}
use version_control_tools_fx.Base.Decimal.{int}
use version_control_tools_fx.Notify.Info.{PushedAt, get_pushlog_info}

-- A marker, as `debugbase85obsmarkers` prints it.
pub record Marker : Type 0 where
  pub precursor : Text
  pub successors : List Text
  pub metadata : List (Text × Text)
  pub time : ℕ

-- What the commands on a node print, or their error: `hg log` with hidden changesets, for the node,
-- the description and the push id, and for the push; and without hidden ones.
pub record Logs : Type 0 where
  pub hidden_log : Text → Result Text
  pub pushes_log : Text → Result Text
  pub visible_log : Text → Result Text

pub record NodePayload : Type 0 where
  pub node : Text
  pub known : Bool
  pub visible : Option Bool
  pub desc : Option Text
  pub push : Option PushedAt

pub record MarkerPayload : Type 0 where
  pub precursor : NodePayload
  pub successors : List NodePayload
  pub user : Option Text
  pub time : ℕ

-- `rev_info`
unfoldable pub rev_info : Result Text → Result (Option (List Text))
unfolding split_on contains
rev_info (ok out) = ok (some (split_on 0 out))
rev_info (err (command_error e)) =
    if contains e (codes "unknown revision") then ok none else err (command_error e)
rev_info (err e) = err e

abbrev is_empty : Text → Bool
is_empty [] = true
is_empty (c ∷ cs) = false

-- Whether the changeset is visible, or that this is not known.
unfoldable pub is_visible : Result Text → Result (Option Bool)
unfolding strip contains
is_visible (ok out) = ok (some (not (is_empty (strip out))))
is_visible (err (command_error e)) =
    ok (if contains e (codes "hidden revision") then some false else none)
is_visible (err e) = err e

abbrev pub push_at : Text → List (ℕ × PushedAt) → Result (Option PushedAt)
push_at pushid [] = ok none
push_at pushid (p ∷ ps) = do
  n ← int pushid
  push ← require key_error (lookup n (p ∷ ps))
  ok (some push)

-- The push of a node whose third field is this.
unfoldable pub push_of_node : Logs → Text → Text → Text → Result (Option PushedAt)
unfolding get_pushlog_info int lookup
push_of_node l public_url node [] = ok none
push_of_node l public_url node (c ∷ cs) = do
  out ← l.pushes_log node
  pushes ← get_pushlog_info public_url out
  push_at (c ∷ cs) pushes

-- `node_payload` behind `rev_info`
unfoldable pub payload_of : Logs → Text → Text → Option (List Text) → Result NodePayload
unfolding is_visible push_of_node
payload_of l public_url node none =
    ok (record { node = node; known = false; visible = none; desc = none; push = none })
payload_of l public_url node (some (n ∷ desc ∷ pushid ∷ rest)) = do
  visible ← is_visible (l.visible_log node)
  push ← push_of_node l public_url node pushid
  ok (record { node = node; known = true; visible = visible; desc = some desc; push = push })
payload_of l public_url node (some _) =
    is_visible (l.visible_log node) >>= λ visible. err index_error

-- `node_payload`
unfoldable pub node_payload : Logs → Text → Text → Result NodePayload
unfolding rev_info payload_of
node_payload l public_url node =
    if length node == 40
    then (rev_info (l.hidden_log node) >>= payload_of l public_url node)
    else err other_error

unfoldable pub node_payloads : Logs → Text → List Text → Result (List NodePayload)
unfolding node_payload
node_payloads l public_url [] = ok []
node_payloads l public_url (n ∷ ns) = do
  p ← node_payload l public_url n
  rest ← node_payloads l public_url ns
  ok (p ∷ rest)

-- The last user of the metadata.
unfoldable pub user_of : Option Text → List (Text × Text) → Option Text
unfolding text_eq
user_of user [] = user
user_of user (m ∷ ms) = user_of (if text_eq m.0 (codes "user") then some m.1 else user) ms

-- The data of `obsolete.1`, for the decoded markers.
unfoldable pub obsolete_markers : Logs → Text → List Marker → Result (List MarkerPayload)
unfolding node_payload node_payloads user_of
obsolete_markers l public_url [] = ok []
obsolete_markers l public_url (m ∷ ms) = do
  precursor ← node_payload l public_url m.precursor
  successors ← node_payloads l public_url m.successors
  rest ← obsolete_markers l public_url ms
  ok (
      record {
        precursor = precursor;
        successors = successors;
        user = user_of none m.metadata;
        time = m.time;
      }
      ∷ rest)

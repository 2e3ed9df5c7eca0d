-- ===== src/Message/Display.antt =====
-- `payload_log_display` of util.py. What is displayed stays apart in pieces: how Python prints a
-- list of texts or a value is not modelled.
use text.Mathlib.Text.{◌==◌ as str_eq}
use version_control_tools_fx.Base.{
  ℕ, ◌-◌, Bool, List, [], ◌∷◌, Option, none, some, Text, String, map, length, take, ltb,
  if◌then◌else◌,
}
use version_control_tools_fx.Base.Result.{Result, ok, key_error, require, ◌>>=◌}
use version_control_tools_fx.Message.{Payload}

pub data Piece : Type 0 where
  path : Text → Piece
  -- the heads shown, and how many more there are
  heads : List Text → ℕ → Piece
  all_heads : List Text → Piece
  namespace_key : Text → Text → Piece
  bootstrap : Bool → Piece
  last_push_id : Option ℕ → Piece

-- The fields that `PAYLOAD_LOGS` names for a message, in order.
pub data Field : Type 0 where
  path_field heads_field namespace_key_field bootstrap_field last_push_id_field : Field

-- `PAYLOAD_LOGS`
unfoldable pub payload_logs : String → Option (List Field)
payload_logs name =
    if str_eq name "hg-repo-init-1"
    then some (path_field ∷ [])
    else if str_eq name "hg-repo-init-2"
    then some (path_field ∷ [])
    else if str_eq name "hg-hgrc-update-1"
    then some (path_field ∷ [])
    else if str_eq name "hg-changegroup-1"
    then some (path_field ∷ heads_field ∷ [])
    else if str_eq name "hg-changegroup-2"
    then some (path_field ∷ heads_field ∷ [])
    else if str_eq name "hg-pushkey-1"
    then some (path_field ∷ namespace_key_field ∷ [])
    else if str_eq name "hg-repo-sync-1"
    then some (path_field ∷ heads_field ∷ [])
    else if str_eq name "hg-repo-sync-2"
    then some (path_field ∷ heads_field ∷ bootstrap_field ∷ [])
    else if str_eq name "hg-heads-1"
    then some (path_field ∷ heads_field ∷ last_push_id_field ∷ [])
    else if str_eq name "hg-repo-delete-1"
    then some (path_field ∷ [])
    else none

abbrev pub max_heads_per_message : ℕ
max_heads_per_message = 25

-- The heads cut to 12 characters, and their number to `MAX_HEADS_PER_MESSAGE`.
unfoldable pub display_heads : List Text → Piece
display_heads hs =
    let short = map (take 12) hs in
    if ltb max_heads_per_message (length short)
    then heads (take max_heads_per_message short) (length short - max_heads_per_message)
    else all_heads short

-- `format` raises a `KeyError` for a key that is missing.
unfoldable pub display_field : Payload → Field → Result Piece
unfolding display_heads
display_field p path_field = do x ← require key_error p.path; ok (path x)
display_field p heads_field = do x ← require key_error p.heads; ok (display_heads x)
display_field p namespace_key_field = do
  n ← require key_error p.namespace
  k ← require key_error p.key
  ok (namespace_key n k)
display_field p bootstrap_field = do x ← require key_error p.bootstrap; ok (bootstrap x)
display_field p last_push_id_field = do x ← require key_error p.last_push_id; ok (last_push_id x)

unfoldable pub display_fields : Payload → List Field → Result (List Piece)
unfolding display_field
display_fields p [] = ok []
display_fields p (f ∷ fs) = do x ← display_field p f; xs ← display_fields p fs; ok (x ∷ xs)

-- `payload_log_display`: the message's name and its pieces
unfoldable pub payload_log_display : Payload → Result (String × List Piece)
unfolding payload_logs display_fields
payload_log_display p = do
  name ← require key_error p.name
  if str_eq name "heartbeat-1" then ok (name, []) else do
    fields ← require key_error (payload_logs name)
    pieces ← display_fields p fields
    ok (name, pieces)

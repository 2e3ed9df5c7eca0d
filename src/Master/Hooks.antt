-- ===== src/Master/Hooks.antt =====
-- The hooks of hgext.py and the functions that send. Times and log lines are left out.
use version_control_tools_fx.Base.{
  ℕ, Bool, true, false, not, ◌&&◌, List, [], ◌∷◌, ◌++◌, map, Option, none, some, Text, codes,
  text_eq, text_leb, any, if◌then◌else◌,
}
use version_control_tools_fx.Base.Result.{ok, err}
use version_control_tools_fx.Message.{Payload}
use version_control_tools_fx.Message.Produce.{
  send_heartbeat, record_hg_changegroup, record_hg_pushkey, record_hg_repo_heads,
}
use version_control_tools_fx.Master.Log.{Log, Sending, send, send_all, continue}

-- One entry of `_replicationinfo["pushkey"]`.
pub record Pushkey : Type 0 where
  pub namespace : Text
  pub key : Text
  pub old : Text
  pub new : Text
  pub ret : ℕ

-- `repo._replicationinfo`
pub record ReplicationInfo : Type 0 where
  pub pushkey : List Pushkey
  pub changegroup : Bool
  pub obsolescence : List (Text × Text)
  pub pre_served_heads : List Text

-- The return value of a pushkey update.
pub data Ret : Type 0 where
  nothing : Ret
  flag : Bool → Ret
  number : ℕ → Ret

abbrev pub to_int : Ret → ℕ
to_int nothing = 0
to_int (flag b) = if b then 0 else 1
to_int (number n) = n

-- `pretxnopenhook`, with the served heads: the new information, or none where it refuses.
unfoldable pub pretxnopenhook : List Text → Log → Option ReplicationInfo × Log
unfolding send
pretxnopenhook served l =
    let (r, l') = send send_heartbeat l in
    elim r [
      | err e ↦ (none, l')
      | ok _ ↦ (
        some (record {
          pushkey = [];
          changegroup = false;
          obsolescence = [];
          pre_served_heads = served;
        }),
        l',
      )
    ]

-- `pushkeyhook`
unfoldable pub pushkeyhook : Text → Text → Text → Text → Ret → ReplicationInfo → ReplicationInfo
pushkeyhook namespace key old new ret info =
    let entry : Pushkey = record {
      namespace = namespace;
      key = key;
      old = old;
      new = new;
      ret = to_int ret;
    } in
    if text_eq namespace (codes "obsolescence")
    then info
    else record info { pushkey = info.pushkey ++ entry ∷ [] }

-- `pretxnchangegrouphook`
unfoldable pub pretxnchangegrouphook : ReplicationInfo → ReplicationInfo
pretxnchangegrouphook info = record info { changegroup = true }

unfoldable pub heads_eq : List Text → List Text → Bool
heads_eq [] [] = true
heads_eq (x ∷ xs) (y ∷ ys) = text_eq x y && heads_eq xs ys
heads_eq _ _ = false

-- `pretxnclosehook`: whether it lets the transaction close, and whether the message of the heads
-- is scheduled.
unfoldable pub pretxnclosehook : List Text → ReplicationInfo → Log → Option Bool × Log
unfolding send heads_eq
pretxnclosehook heads info l =
    let (r, l') = send send_heartbeat l in
    elim r [ err e ↦ (none, l') | ok _ ↦ (some (not (heads_eq heads info.pre_served_heads)), l') ]

-- `sorted(d.items())`
unfoldable pub insert_item : Text × Text → List (Text × Text) → List (Text × Text)
insert_item x [] = x ∷ []
insert_item x (y ∷ ys) =
    let rest = insert_item x ys in if text_leb x.0 y.0 then x ∷ y ∷ ys else y ∷ rest

unfoldable pub sorted_markers : List (Text × Text) → List (Text × Text)
unfolding insert_item
sorted_markers [] = []
sorted_markers (x ∷ xs) = insert_item x (sorted_markers xs)

-- `_replicationinfo` once the markers of the transaction, if there are any, are stored in it.
abbrev pub with_markers : List (Text × Text) → ReplicationInfo → ReplicationInfo
with_markers [] info = info
with_markers (m ∷ ms) info = record info { obsolescence = m ∷ ms }

-- The nodes that are heads.
abbrev pub keep_heads : List Text → List Text → List Text
keep_heads heads [] = []
keep_heads heads (n ∷ ns) =
    if any (text_eq n) heads then n ∷ keep_heads heads ns else keep_heads heads ns

module _ (path : Text) where
  -- The message of `sendpushkeymessage`.
  abbrev pub pushkey_message : Pushkey → Payload
  pushkey_message k = record_hg_pushkey path k.namespace k.key k.old k.new k.ret

  abbrev pub marker_message : Text × Text → Payload
  marker_message (key, value) = record_hg_pushkey path (codes "obsolete") key [] value 0

  -- The loop over the markers in both hooks.
  unfoldable pub send_markers : ReplicationInfo → Sending
  unfolding send_all sorted_markers
  send_markers info = send_all (map marker_message (sorted_markers info.obsolescence))

  -- `sendpushkeymessages`
  unfoldable pub sendpushkeymessages : ReplicationInfo → Sending
  unfolding send_all
  sendpushkeymessages info = send_all (map pushkey_message info.pushkey)

  -- The sends of `txnclosehook`.
  unfoldable pub txnclosehook : ReplicationInfo → Sending
  unfolding sendpushkeymessages send_markers
  txnclosehook info l =
      if info.changegroup
      then (ok tt, l)
      else continue (sendpushkeymessages info l) (send_markers info)

  -- `changegrouphook`, with the repository's heads and the nodes from the first new one on
  unfoldable pub changegrouphook : Text → List Text → List Text → ReplicationInfo → Sending
  unfolding send send_markers
  changegrouphook source heads nodes info l =
      continue (send (record_hg_changegroup path source nodes (keep_heads heads nodes)) l)
        (send_markers info)

  -- `sendheadsmessage`
  unfoldable pub sendheadsmessage : Bool → List Text → Option ℕ → Sending
  unfolding send
  sendheadsmessage success heads last_push_id l =
      if not success then (ok tt, l) else send (record_hg_repo_heads path heads last_push_id) l

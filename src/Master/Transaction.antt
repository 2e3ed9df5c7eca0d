-- ===== src/Master/Transaction.antt =====
-- A transaction of the master, with the hooks in Mercurial's order: `pretxnopen`; the hooks of the
-- updates; `pretxnclose`; `txnclose`; `changegroup`; and what runs once the lock is released. A
-- hook that raises behind the transaction's end is the last that is followed.
pub mod Written
pub mod Gathered
pub mod Closing
pub mod Recorded
pub mod Refused
use version_control_tools_fx.Base.{
  ℕ, Bool, true, false, List, [], ◌∷◌, Option, none, some, Text, if◌then◌else◌,
}
use version_control_tools_fx.Base.Result.{Result, ok, err}
use version_control_tools_fx.Master.Log.{Log, Sending, continue}
use version_control_tools_fx.Master.Hooks.{
  ReplicationInfo, Ret, pretxnopenhook, pushkeyhook, pretxnchangegrouphook, pretxnclosehook,
  with_markers, txnclosehook, changegrouphook, sendheadsmessage,
}

-- What happens within the transaction: a pushkey update, or the changegroup.
pub data Update : Type 0 where
  pushkey_update : Text → Text → Text → Text → Ret → Update
  changegroup_update : Update

pub record Push : Type 0 where
  pub updates : List Update
  pub served_before : List Text
  pub served_after : List Text
  -- the obsolescence markers that the transaction adds
  pub markers : List (Text × Text)
  -- for the changegroup: where it comes from, the heads behind it and its nodes
  pub source : Text
  pub heads : List Text
  pub nodes : List Text
  pub last_push_id : Option ℕ

pub data Outcome : Type 0 where
  refused aborted : Outcome
  closed : Result (Unit {0}) → Outcome

-- The hooks of the updates.
unfoldable pub gather : List Update → ReplicationInfo → ReplicationInfo
unfolding pushkeyhook pretxnchangegrouphook
gather [] info = info
gather (pushkey_update namespace key old new ret ∷ us) info =
    gather us (pushkeyhook namespace key old new ret info)
gather (changegroup_update ∷ us) info = gather us (pretxnchangegrouphook info)

module _ (path : Text) (p : Push) where
  unfoldable pub added_changegroup : ReplicationInfo → Sending
  unfolding changegrouphook
  added_changegroup info l =
      if info.changegroup then changegrouphook path p.source p.heads p.nodes info l else (ok tt, l)

  unfoldable pub unlocked : Bool → Sending
  unfolding sendheadsmessage
  unlocked scheduled l =
      if scheduled then sendheadsmessage path true p.served_after p.last_push_id l else (ok tt, l)

  unfoldable pub after_close : ReplicationInfo → Bool → Sending
  unfolding txnclosehook added_changegroup unlocked
  after_close info scheduled l =
      continue (continue (txnclosehook path info l) (added_changegroup info)) (unlocked scheduled)

  unfoldable pub close_transaction : ReplicationInfo → Log → Outcome × Log
  unfolding pretxnclosehook after_close
  close_transaction info l =
      let (r, l') = pretxnclosehook p.served_after info l in
      elim r [
        | none ↦ (aborted, l')
        | some scheduled ↦
            let (result, l'') = after_close (with_markers p.markers info) scheduled l' in
            (closed result, l'')
      ]

  unfoldable pub transaction : Log → Outcome × Log
  unfolding pretxnopenhook gather close_transaction
  transaction l =
      let (r, l') = pretxnopenhook p.served_before l in
      elim r [ none ↦ (refused, l') | some info ↦ close_transaction (gather p.updates info) l' ]

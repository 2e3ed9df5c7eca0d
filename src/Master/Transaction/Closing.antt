-- ===== src/Master/Transaction/Closing.antt =====
-- The hooks that open and close a transaction, while Kafka takes each send.
use version_control_tools_fx.Base.{
  ◌≡◌, refl, ap, ◌∙◌, false, not, List, [], ◌∷◌, ◌++◌, append_assoc, some, Text,
}
use version_control_tools_fx.Base.Result.{ok}
use version_control_tools_fx.Message.{Payload}
use version_control_tools_fx.Message.Produce.{send_heartbeat}
use version_control_tools_fx.Master.Log.{Log, Up}
use version_control_tools_fx.Master.Hooks.{
  ReplicationInfo, pretxnopenhook, pretxnclosehook, heads_eq, with_markers,
}
use version_control_tools_fx.Master.Transaction.{Push, closed, close_transaction}
use version_control_tools_fx.Master.Transaction.Written.{Wrote-send, Wrote-close, closing}

-- `_replicationinfo` as it begins.
abbrev pub opened : List Text → ReplicationInfo
opened served = record {
  pushkey = [];
  changegroup = false;
  obsolescence = [];
  pre_served_heads = served;
}

-- The hooks that open and close write one heartbeat each.
module _ (served : List Text) (l : Log) (up : Up l) where
  pub pretxnopenhook-Up :
      ((pretxnopenhook served l).0 ≡ some (opened served))
      × ((pretxnopenhook served l).1.written ≡ l.written ++ send_heartbeat ∷ [])
      × Up (pretxnopenhook served l).1
  unfolding pretxnopenhook
  pretxnopenhook-Up =
      let (fine, (written, still)) = Wrote-send send_heartbeat l up in
      rw (fine, pretxnopenhook) (refl, written, still)

  pub pretxnclosehook-Up :
      (info : ReplicationInfo)
      → ((pretxnclosehook served info l).0 ≡ some (not (heads_eq served info.pre_served_heads)))
        × ((pretxnclosehook served info l).1.written ≡ l.written ++ send_heartbeat ∷ [])
        × Up (pretxnclosehook served info l).1
  unfolding pretxnclosehook
  pretxnclosehook-Up info =
      let (fine, (written, still)) = Wrote-send send_heartbeat l up in
      rw (fine, pretxnclosehook) (refl, written, still)

module _ (path : Text) (p : Push) where
  -- A transaction that closes has written what it meets behind the updates.
  pub close_transaction-Up :
      (info : ReplicationInfo) (l : Log)
      → Up l
      → ((close_transaction path p info l).0 ≡ closed (ok tt))
        × ((close_transaction path p info l).1.written
            ≡ l.written
              ++ send_heartbeat
                ∷ closing path p
                    (with_markers p.markers info)
                    (not (heads_eq p.served_after info.pre_served_heads)))
  unfolding close_transaction
  close_transaction-Up info l up =
      let (fine, written, still) = pretxnclosehook-Up p.served_after l up info in
      let l' = (pretxnclosehook p.served_after info l).1 in
      let kept = with_markers p.markers info in
      let scheduled = not (heads_eq p.served_after info.pre_served_heads) in
      let (ended, (after, _)) = Wrote-close path p kept scheduled l' still in
      rw (fine, close_transaction, ended)
        (
          refl,
          after
              ∙ ap (λ (ws : List Payload). ws ++ closing path p kept scheduled) written
              ∙ append_assoc l.written (send_heartbeat ∷ []) (closing path p kept scheduled),
        )

-- ===== src/Master/Transaction/Written.antt =====
-- What a transaction writes to the replication log.
use version_control_tools_fx.Base.{
  ◌≡◌, refl, sym, ap, ◌∙◌, Bool, true, false, List, [], ◌∷◌, ◌++◌, map, append-nil, append_assoc,
  Text, Bool-cases, inl, inr, if◌then◌else◌,
}
use version_control_tools_fx.Base.Result.{Result, ok, err}
use version_control_tools_fx.Message.{Payload}
use version_control_tools_fx.Consumer.Handle.Protocol.{payload_of, pushed, has_heads}
use version_control_tools_fx.Master.Log.{Log, Sending, send, send_all, continue, Up}
use version_control_tools_fx.Master.Hooks.{
  ReplicationInfo, sorted_markers, send_markers, sendpushkeymessages, txnclosehook, keep_heads,
  changegrouphook, sendheadsmessage, pushkey_message, marker_message,
}
use version_control_tools_fx.Master.Transaction.{Push, added_changegroup, unlocked, after_close}

-- The sends have gone through and have written these messages.
abbrev pub Wrote : List Payload → Log → Result (Unit {0}) × Log → Type 0
Wrote ps l r = (r.0 ≡ ok tt) × ((r.1.written ≡ l.written ++ ps) × Up r.1)

pub Wrote-send : (m : Payload) (l : Log) → Up l → Wrote (m ∷ []) l (send m l)
unfolding send
Wrote-send m l up = rw (up l.sends) (refl, (refl, up))

Wrote-nothing : (l : Log) → Up l → Wrote [] l (ok tt, l)
Wrote-nothing l up = (refl, (sym (append-nil l.written), up))

Wrote-continue :
    (ps qs : List Payload) (l : Log) (r : Result (Unit {0}) × Log) (next : Sending)
    → Wrote ps l r
    → ((l' : Log) → Up l' → Wrote qs l' (next l'))
    → Wrote (ps ++ qs) l (continue r next)
Wrote-continue ps qs l (ok u, l') next w k =
    let (fine, (written, up)) = k l' w.1.1 in
    (fine, (written ∙ ap (λ xs. xs ++ qs) w.1.0 ∙ append_assoc l.written ps qs, up))
Wrote-continue ps qs l (err e, l') next w k = absurd (cc (w.0))

Wrote-all : (ps : List Payload) (l : Log) → Up l → Wrote ps l (send_all ps l)
unfolding send_all
Wrote-all [] l up = Wrote-nothing l up
Wrote-all (p ∷ ps) l up =
    Wrote-continue (p ∷ []) ps l (send p l) (send_all ps) (Wrote-send p l up) (Wrote-all ps)

module _ (path : Text) where
  abbrev pub markers_of : ReplicationInfo → List Payload
  markers_of info = map (marker_message path) (sorted_markers info.obsolescence)

  Wrote-markers :
      (info : ReplicationInfo) (l : Log)
      → Up l
      → Wrote (markers_of info) l (send_markers path info l)
  unfolding send_markers
  Wrote-markers info l up = Wrote-all (markers_of info) l up

  abbrev pub keys_then_markers : ReplicationInfo → List Payload
  keys_then_markers info = map (pushkey_message path) info.pushkey ++ markers_of info

  Wrote-txnclose :
      (info : ReplicationInfo) (l : Log)
      → Up l
      → Wrote (if info.changegroup then [] else keys_then_markers info) l (txnclosehook path info l)
  unfolding txnclosehook sendpushkeymessages
  Wrote-txnclose info l up = elim (Bool-cases info.changegroup) [
    | inl yes_group ↦ rw yes_group (Wrote-nothing l up)
    | inr no_group ↦ rw no_group (
        Wrote-continue _ (markers_of info) l _ (send_markers path info)
          (Wrote-all (map (pushkey_message path) info.pushkey) l up) (Wrote-markers info))
  ]

  module _ (p : Push) where
    abbrev pub group_of : Payload
    group_of = payload_of (pushed path p.source p.nodes (keep_heads p.heads p.nodes))

    Wrote-added :
        (info : ReplicationInfo) (l : Log)
        → Up l
        → Wrote
            (if info.changegroup then group_of ∷ markers_of info else [])
            l
            (added_changegroup path p info l)
    unfolding added_changegroup changegrouphook
    Wrote-added info l up = elim (Bool-cases info.changegroup) [
      | inl yes_group ↦ rw yes_group (
          Wrote-continue (group_of ∷ []) (markers_of info) l _ (send_markers path info)
            (Wrote-send group_of l up) (Wrote-markers info))
      | inr no_group ↦ rw no_group (Wrote-nothing l up)
    ]

    abbrev pub heads_of : Payload
    heads_of = payload_of (has_heads path p.served_after p.last_push_id)

    Wrote-unlocked :
        (scheduled : Bool) (l : Log)
        → Up l
        → Wrote (if scheduled then heads_of ∷ [] else []) l (unlocked path p scheduled l)
    unfolding unlocked sendheadsmessage
    Wrote-unlocked true l up = Wrote-send heads_of l up
    Wrote-unlocked false l up = Wrote-nothing l up

    -- What the hooks behind the transaction write.
    abbrev pub closing : ReplicationInfo → Bool → List Payload
    closing info scheduled =
        (if info.changegroup then group_of ∷ markers_of info else keys_then_markers info)
        ++ (if scheduled then heads_of ∷ [] else [])

    pub Wrote-close :
        (info : ReplicationInfo) (scheduled : Bool) (l : Log)
        → Up l
        → Wrote (closing info scheduled) l (after_close path p info scheduled l)
    unfolding after_close
    Wrote-close info scheduled l up =
        Wrote-continue _ _ l _ (unlocked path p scheduled) (go info.changegroup refl)
          (Wrote-unlocked scheduled)
      where
        both :
            Wrote
              ((if info.changegroup then [] else keys_then_markers info)
                ++ (if info.changegroup then group_of ∷ markers_of info else []))
              l
              (continue (txnclosehook path info l) (added_changegroup path p info))
        both =
            Wrote-continue _ _ l _ (added_changegroup path p info) (Wrote-txnclose info l up)
              (Wrote-added info)

        go :
            (b : Bool)
            → info.changegroup ≡ b
            → Wrote
                (if info.changegroup then group_of ∷ markers_of info else keys_then_markers info)
                l
                (continue (txnclosehook path info l) (added_changegroup path p info))
        go true e = rw e (rw e at both)
        go false e = rw e (rw (e, append-nil (keys_then_markers info)) at both)

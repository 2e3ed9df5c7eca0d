-- ===== src/Master/Transaction/Recorded.antt =====
-- The events that a transaction records while Kafka takes each send.
use version_control_tools_fx.Master.Transaction.Closing.{
  opened, pretxnopenhook-Up, close_transaction-Up,
}
use version_control_tools_fx.Base.{
  ◌≡◌, refl, sym, ap, ◌∙◌, Bool, true, false, not, List, [], ◌∷◌, ◌++◌, map, append_assoc, Text,
  if◌then◌else◌,
}
use version_control_tools_fx.Base.Result.{ok}
use version_control_tools_fx.Message.{Payload}
use version_control_tools_fx.Message.Produce.{send_heartbeat}
use version_control_tools_fx.Consumer.Handle.{read_call}
use version_control_tools_fx.Consumer.Handle.Protocol.{
  Event, payload_of, call_of, pushed, has_heads, heartbeat, read_call-payload_of,
}
use version_control_tools_fx.Master.Log.{Log, Up}
use version_control_tools_fx.Master.Hooks.{
  ReplicationInfo, Pushkey, pretxnopenhook, heads_eq, sorted_markers, with_markers, keep_heads,
  pushkey_message, marker_message,
}
use version_control_tools_fx.Master.Transaction.{Push, closed, gather, transaction}
use version_control_tools_fx.Master.Transaction.Written.{closing, markers_of, group_of, heads_of}
use version_control_tools_fx.Master.Transaction.Gathered.{
  map_append, keys_of, has_changegroup, marker_event, gather-keys, gather-changegroup, gather-kept,
}

-- The markers go behind the changegroup, or behind the pushkey updates where there is none; the
-- heads are last, where the served heads have changed.
abbrev pub recorded : Text → Push → List Event
recorded path p =
    let markers = map (marker_event path) (sorted_markers p.markers) in
    (if has_changegroup p.updates
      then pushed path p.source p.nodes (keep_heads p.heads p.nodes) ∷ markers
      else keys_of path p.updates ++ markers)
    ++ (if heads_eq p.served_after p.served_before
        then []
        else has_heads path p.served_after p.last_push_id ∷ [])

module _ (path : Text) (p : Push) where
  with_markers-obsolescence :
      (ms : List (Text × Text)) (info : ReplicationInfo)
      → info.obsolescence ≡ []
      → (with_markers ms info).obsolescence ≡ ms
  with_markers-obsolescence [] info e = e
  with_markers-obsolescence (m ∷ ms) info e = refl

  with_markers-others :
      (ms : List (Text × Text)) (info : ReplicationInfo)
      → ((with_markers ms info).changegroup ≡ info.changegroup)
        × ((with_markers ms info).pushkey ≡ info.pushkey)
  with_markers-others [] info = (refl, refl)
  with_markers-others (m ∷ ms) info = (refl, refl)

  markers-eq :
      (ms : List (Text × Text))
      → map (marker_message path) ms ≡ map payload_of (map (marker_event path) ms)
  markers-eq [] = refl
  markers-eq (m ∷ ms) = ap (λ ps. marker_message path m ∷ ps) (markers-eq ms)

  -- What is written, from its parts.
  abbrev assembled : Bool → List Payload → List Payload → Bool → List Payload
  assembled group keys markers scheduled =
      (if group then group_of path p ∷ markers else keys ++ markers)
      ++ (if scheduled then heads_of path p ∷ [] else [])

  assembled-recorded :
      (group same : Bool) (keys markers : List Event)
      → assembled group (map payload_of keys) (map payload_of markers) (not same)
        ≡ map payload_of (
            (if group
              then pushed path p.source p.nodes (keep_heads p.heads p.nodes) ∷ markers
              else keys ++ markers)
            ++ (if same then [] else has_heads path p.served_after p.last_push_id ∷ []))
  assembled-recorded true true keys markers = sym (
      map_append payload_of (pushed path p.source p.nodes (keep_heads p.heads p.nodes) ∷ markers)
        [])
  assembled-recorded true false keys markers = sym (
      map_append payload_of (pushed path p.source p.nodes (keep_heads p.heads p.nodes) ∷ markers)
        (has_heads path p.served_after p.last_push_id ∷ []))
  assembled-recorded false true keys markers =
      ap (λ (ws : List Payload). ws ++ []) (sym (map_append payload_of keys markers))
      ∙ sym (map_append payload_of (keys ++ markers) [])
  assembled-recorded false false keys markers =
      ap (λ (ws : List Payload). ws ++ heads_of path p ∷ [])
        (sym (map_append payload_of keys markers))
      ∙ sym (
          map_append payload_of (keys ++ markers)
            (has_heads path p.served_after p.last_push_id ∷ []))

  closing-recorded :
      closing path p
        (with_markers p.markers (gather p.updates (opened p.served_before)))
        (not (heads_eq p.served_after (gather p.updates (opened p.served_before)).pre_served_heads))
      ≡ map payload_of (recorded path p)
  closing-recorded =
      let begun = opened p.served_before in
      let info = gather p.updates begun in
      let kept = with_markers p.markers info in
      let message = pushkey_message path in
      let later = not (heads_eq p.served_after info.pre_served_heads) in
      let (same_group, same_keys) = with_markers-others p.markers info in
      let (no_markers, same_heads) = gather-kept p.updates begun in
      let group : kept.changegroup ≡ has_changegroup p.updates =
        same_group ∙ gather-changegroup p.updates begun in
      let keys : map message kept.pushkey ≡ map payload_of (keys_of path p.updates) =
        ap (λ (ks : List Pushkey). map message ks) same_keys ∙ gather-keys path p.updates begun in
      let markers : markers_of path kept
          ≡ map payload_of (map (marker_event path) (sorted_markers p.markers)) =
        ap (λ (ms : List (Text × Text)). map (marker_message path) (sorted_markers ms))
          (with_markers-obsolescence p.markers info no_markers)
        ∙ markers-eq (sorted_markers p.markers) in
      ap (λ (g : Bool). assembled g (map message kept.pushkey) (markers_of path kept) later) group
      ∙ ap
          (λ (ks : List Payload).
            assembled (has_changegroup p.updates) ks (markers_of path kept) later)
          keys
      ∙ ap
          (λ (ms : List Payload).
            assembled (has_changegroup p.updates) (map payload_of (keys_of path p.updates)) ms
              later)
          markers
      ∙ ap
          (λ (hs : List Text).
            assembled (has_changegroup p.updates) (map payload_of (keys_of path p.updates))
              (map payload_of (map (marker_event path) (sorted_markers p.markers)))
              (not (heads_eq p.served_after hs)))
          same_heads
      ∙ assembled-recorded (has_changegroup p.updates) (heads_eq p.served_after p.served_before)
          (keys_of path p.updates) (map (marker_event path) (sorted_markers p.markers))

  -- While Kafka takes each send, a transaction closes and writes two heartbeats and then exactly
  -- the events of its updates, in order.
  pub transaction_records :
      (l : Log)
      → Up l
      → ((transaction path p l).0 ≡ closed (ok tt))
        × ((transaction path p l).1.written
            ≡ l.written ++ map payload_of (heartbeat ∷ heartbeat ∷ recorded path p))
  unfolding transaction
  transaction_records l up =
      let (fine, written, still) = pretxnopenhook-Up p.served_before l up in
      let l' = (pretxnopenhook p.served_before l).1 in
      let info = gather p.updates (opened p.served_before) in
      let rest =
        closing path p (with_markers p.markers info)
          (not (heads_eq p.served_after info.pre_served_heads)) in
      let (ends, all) = close_transaction-Up path p info l' still in
      rw (fine, transaction)
        (
          ends,
          all
              ∙ ap (λ (ws : List Payload). ws ++ send_heartbeat ∷ rest) written
              ∙ append_assoc l.written (send_heartbeat ∷ []) (send_heartbeat ∷ rest)
              ∙ ap (λ (ws : List Payload). l.written ++ send_heartbeat ∷ send_heartbeat ∷ ws)
                  closing-recorded,
        )

  -- A consumer that reads what the transaction has written makes the calls that its events owe.
  pub transaction_replays :
      (l : Log)
      → Up l
      → (sent : List Payload) × ((transaction path p l).1.written ≡ l.written ++ sent)
        × (map read_call sent ≡ map (λ e. ok (call_of e)) (heartbeat ∷ heartbeat ∷ recorded path p))
  transaction_replays l up = (
    map payload_of (heartbeat ∷ heartbeat ∷ recorded path p),
    (transaction_records l up).1,
    read_all (heartbeat ∷ heartbeat ∷ recorded path p),
  )
    where
      read_all :
          (es : List Event) → map read_call (map payload_of es) ≡ map (λ e. ok (call_of e)) es
      read_all [] = refl
      read_all (e ∷ es) = λ i. read_call-payload_of e i ∷ read_all es i

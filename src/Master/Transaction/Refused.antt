-- ===== src/Master/Transaction/Refused.antt =====
-- What a transaction that does not close leaves in the replication log.
use version_control_tools_fx.Base.{
  ◌≡◌, refl, sym, ap, ◌∙◌, List, [], ◌∷◌, ◌++◌, append-nil, append_assoc, All, Text, Bool-cases,
  inl, inr, Option-cases,
}
use version_control_tools_fx.Base.Result.{Result-cases}
use version_control_tools_fx.Message.{Payload}
use version_control_tools_fx.Message.Produce.{send_heartbeat}
use version_control_tools_fx.Master.Log.{Log, send}
use version_control_tools_fx.Master.Hooks.{ReplicationInfo, pretxnopenhook, pretxnclosehook}
use version_control_tools_fx.Master.Transaction.{
  Push, Outcome, refused, aborted, closed, gather, close_transaction, transaction,
}

-- Not closed.
abbrev pub RolledBack : Outcome → Type 0
RolledBack refused = Unit
RolledBack aborted = Unit
RolledBack (closed r) = ⊥

-- A log with some heartbeats more.
pub record Beats (l l' : Log) : Type 0 where
  pub beats : List Payload
  pub written_is : l'.written ≡ l.written ++ beats
  pub are_heartbeats : All (λ m. m ≡ send_heartbeat) beats

send-Beats : (l : Log) → Beats l (send send_heartbeat l).1
unfolding send
send-Beats l = elim (Bool-cases (l.answers l.sends)) [
  | inl taken ↦
      rw (taken, send)
        (record { beats = send_heartbeat ∷ []; written_is = refl; are_heartbeats = (refl, tt) })
  | inr lost ↦
      rw (lost, send)
        (record { beats = []; written_is = sym (append-nil l.written); are_heartbeats = tt })
]

All-append :
    (xs ys : List Payload)
    → All (λ m. m ≡ send_heartbeat) xs
    → All (λ m. m ≡ send_heartbeat) ys
    → All (λ m. m ≡ send_heartbeat) (xs ++ ys)
All-append [] ys a b = b
All-append (x ∷ xs) ys a b = (a.0, All-append xs ys a.1 b)

Beats-trans : (k l m : Log) → Beats k l → Beats l m → Beats k m
Beats-trans k l m a b = record {
  beats = a.beats ++ b.beats;
  written_is =
      b.written_is
      ∙ ap (λ (ws : List Payload). ws ++ b.beats) a.written_is
      ∙ append_assoc k.written a.beats b.beats;
  are_heartbeats = All-append a.beats b.beats a.are_heartbeats b.are_heartbeats;
}

open-Beats : (served : List Text) (l : Log) → Beats l (pretxnopenhook served l).1
unfolding pretxnopenhook
open-Beats served l = elim (Result-cases (send send_heartbeat l).0) [
  | inl (u, e) ↦ rw (e, pretxnopenhook) (send-Beats l)
  | inr (x, e) ↦ rw (e, pretxnopenhook) (send-Beats l)
]

close-Beats :
    (heads : List Text) (info : ReplicationInfo) (l : Log)
    → Beats l (pretxnclosehook heads info l).1
unfolding pretxnclosehook
close-Beats heads info l = elim (Result-cases (send send_heartbeat l).0) [
  | inl (u, e) ↦ rw (e, pretxnclosehook) (send-Beats l)
  | inr (x, e) ↦ rw (e, pretxnclosehook) (send-Beats l)
]

module _ (path : Text) (p : Push) where
  aborted-Beats :
      (info : ReplicationInfo) (l : Log)
      → RolledBack (close_transaction path p info l).0
      → Beats l (close_transaction path p info l).1
  unfolding close_transaction
  aborted-Beats info l h = elim (Option-cases (pretxnclosehook p.served_after info l).0) [
    | inl e ↦ rw (e, close_transaction) (close-Beats p.served_after info l)
    | inr (scheduled, e) ↦ absurd (rw (e, close_transaction) at h)
  ]

  -- Whatever Kafka answers, a transaction that is refused or aborted writes nothing but heartbeats.
  pub transaction-Beats :
      (l : Log) → RolledBack (transaction path p l).0 → Beats l (transaction path p l).1
  unfolding transaction
  transaction-Beats l h = elim (Option-cases (pretxnopenhook p.served_before l).0) [
    | inl e ↦ rw (e, transaction) (open-Beats p.served_before l)
    | inr (begun, e) ↦
        let l' = (pretxnopenhook p.served_before l).1 in
        rw (e, transaction)
          (Beats-trans l l' _ (open-Beats p.served_before l)
            (aborted-Beats (gather p.updates begun) l' (rw (e, transaction) at h)))
  ]
